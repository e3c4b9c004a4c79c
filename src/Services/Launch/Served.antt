-- ===== src/Services/Launch/Served.antt =====
-- The page that the web server gives away while the program runs.
use iot_heater.Prelude.{
  ℕ, ◌+◌, ◌*◌, false, List, [], ◌∷◌, ◌≡◌, refl, subst, sym, ap, none, All, length, Option, some,
  ◌∙◌, Option-cases, inl, inr, if_intro, ◌&&◌,
}
use iot_heater.Text.{
  Bytes, codes, break_at, trim, split, str_eq, starts_with, ends_with, substr, size_sub,
  check_heater_name, check_phone_number_format,
}
use iot_heater.Text.Lines.{Free}
use iot_heater.BaseStation.State.{Station, initial}
use iot_heater.BaseStation.Persist.{
  construct, load_state, load_lines, load_line, load_key, load_default, load_heater, load_named,
  load_emergency, parse_state,
}
use iot_heater.BaseStation.Connections.{handle_new_device}
use iot_heater.BaseStation.Commands.Queue.{handle_sms_command}
use iot_heater.BaseStation.Page.{Machine, device_text, build_webpage}
use iot_heater.BaseStation.Page.Markup.{count_tags, build_webpage-tags}
use iot_heater.BaseStation.Page.Devices.{IsPlain, PlainPeers, process-IsPlain}
use iot_heater.Services.Launch.{
  Host, Program, running, start_program, Event, round, connection, message, handle, main_loop,
}
use iot_heater.Services.Launch.Running.{running_program}

-- The addresses of peers in a round hold no tag.
abbrev pub PlainEvent : Event → Type 0
PlainEvent (round r) = PlainPeers r.ready
PlainEvent (connection fd now) = Unit {0}
PlainEvent (message from content) = Unit {0}

handle-IsPlain : (e : Event) (st : Station) → PlainEvent e → IsPlain st → IsPlain (handle e st).0
unfolding handle handle_new_device handle_sms_command
handle-IsPlain (round r) st f p = process-IsPlain r st f p
handle-IsPlain (connection fd now) st f p = p
handle-IsPlain (message from content) st f p = p

main_loop-IsPlain :
    (es : List Event) (st : Station) → All PlainEvent es → IsPlain st → IsPlain (main_loop es st).0
unfolding main_loop
main_loop-IsPlain [] st f p = p
main_loop-IsPlain (e ∷ es) st f p =
    main_loop-IsPlain es (handle e st).0 f.1 (handle-IsPlain e st f.0 p)

load_default-heaters : (val : Bytes) (st : Station) → (load_default val st).heaters ≡ st.heaters
unfolding load_default
load_default-heaters val st = elim (Option-cases (parse_state val)) [
  | inl e ↦ rw (e, load_default) refl
  | inr (s, e) ↦ rw (e, load_default) refl
]

load_named-heaters :
    (name val : Bytes) (st : Station) → (load_named name val st).heaters ≡ st.heaters
unfolding load_named
load_named-heaters name val st =
    if_intro (λ (x : Station). x.heaters ≡ st.heaters) (check_heater_name name)
      (λ _. elim (Option-cases (parse_state val)) [
        | inl e ↦ rw (e, load_named) refl
        | inr (s, e) ↦ rw (e, load_named) refl
      ])
      (λ _. refl)

load_emergency-heaters : (val : Bytes) (st : Station) → (load_emergency val st).heaters ≡ st.heaters
unfolding load_emergency
load_emergency-heaters val st =
    if_intro (λ (x : Station). x.heaters ≡ st.heaters) (check_phone_number_format val) (λ _. refl)
      (λ _. refl)

load_key-heaters : (key val : Bytes) (st : Station) → (load_key key val st).heaters ≡ st.heaters
unfolding load_key load_heater
load_key-heaters key val st =
    let P = λ (x : Station). x.heaters ≡ st.heaters in
    if_intro P (str_eq key (codes "default_heater_state")) (λ _. load_default-heaters val st)
      (λ _.
        if_intro P (starts_with key (codes "heater_") && ends_with key (codes "_state"))
          (λ _. load_named-heaters (substr key 7 (size_sub (size_sub (length key) 7) 6)) val st)
          (λ _.
            if_intro P (str_eq key (codes "whitelist")) (λ _. refl)
              (λ _.
                if_intro P (str_eq key (codes "emergency_phone"))
                  (λ _. load_emergency-heaters val st) (λ _. refl))))

load_line-heaters : (line : Bytes) (st : Station) → (load_line line st).heaters ≡ st.heaters
unfolding load_line
load_line-heaters line st = elim (Option-cases (break_at b'=' line)) [
  | inl e ↦ rw (e, load_line) refl
  | inr ((key, val), e) ↦ rw (e, load_line) (load_key-heaters (trim key) (trim val) st)
]

load_lines-heaters :
    (lines : List Bytes) (st : Station) → (load_lines lines st).heaters ≡ st.heaters
unfolding load_lines
load_lines-heaters [] st = refl
load_lines-heaters (line ∷ rest) st =
    load_lines-heaters rest (load_line line st) ∙ load_line-heaters line st

-- The state file names no device.
construct-heaters : (file : Option Bytes) (word : ℕ) → (construct file word).0.heaters ≡ []
unfolding construct load_state initial
construct-heaters none word = refl
construct-heaters (some text) word = load_lines-heaters (split b'\n' text) initial

-- While the program runs, on any bytes from devices and any text messages, the page has the tags of
-- its frame and fourteen for each heater listed, and no other: what devices send brings in none.
-- This takes the addresses of peers and the texts of times to hold no `<`.
pub served_page-tags :
    (h : Host) (p : Program) (es : List Event) (m : Machine)
    → h.sockets.listen_works none ≡ false
    → start_program h ≡ running p
    → All PlainEvent es
    → ((t : ℕ) → Free b'<' (m.time_text t))
    → let st = (main_loop es p.base_station).0 in
      count_tags (build_webpage m st) ≡ 31 + count_tags (device_text m) + 14 * length st.heaters
served_page-tags h p es m r e f t =
    let up = running_program h p r e in
    let none_yet : p.base_station.heaters ≡ [] =
      ap (λ (st : Station). st.heaters) up.8 ∙ construct-heaters h.state_file h.word in
    build_webpage-tags m _ t
      (main_loop-IsPlain es p.base_station f (subst (All _) (sym none_yet) tt))
