-- ===== src/BaseStation/Messages/Order.antt =====
-- The order in which the requests of two devices are served does not matter to the base station.
use iot_heater.Prelude.{
  ℕ, ◌+◌, ◌%◌, ◌^◌, not, List, [], ◌∷◌, ◌≡◌, ◌≢◌, refl, ap, ◌∙◌, sym, arith, Bool-cases, inl, inr,
  Option-cases, ◌==◌, drop, ◌⊎◌,
}
use iot_heater.OrdMap.{Map, insert}
use iot_heater.OrdMap.Keys.{mac_order}
use iot_heater.Text.{Bytes}
use iot_heater.Wire.{HeaterState, Header, parse_header, mac_value, req_heater_state}
use iot_heater.BaseStation.State.{Station, DeviceConnection, new_heater, update}
use iot_heater.BaseStation.Messages.{
  Arrival, touch, answer_request, send_heater_state, on_header, parse_message, scan_name,
  checked_name, wanted_state,
}

insert_comm :
    {V : Type 0}
    → (k j : ℕ) (v w : V) (m : Map ℕ V) → k ≢ j
    → insert k v (insert j w m) ≡ insert j w (insert k v m)
unfolding insert
insert_comm k j v w [] ne = ground arith
insert_comm k j v w ((i, x) ∷ m) ne = ground (arith, insert_comm k j v w m ne)

touch_comm :
    (f g t u : ℕ) (cs : List DeviceConnection)
    → f ≢ g
    → touch f t (touch g u cs) ≡ touch g u (touch f t cs)
unfolding touch
touch_comm f g t u [] ne = refl
touch_comm f g t u (c ∷ cs) ne = ground (arith, touch_comm f g t u cs ne)

-- What a request leaves behind, with the state it is answered with.
recorded : Arrival → ℕ → Header → Bytes → HeaterState → Station → Station
recorded a fd h name state st = record st {
  message_counter = (st.message_counter + 1) % 2 ^ 64;
  connections = touch fd a.steady_now st.connections;
  heater_counter = insert (mac_value h.mac) h.counter st.heater_counter;
  heaters =
      insert (mac_value h.mac) (update a.time_now state (new_heater name a.peer_ip)) st.heaters;
}

answer_request-recorded :
    (a : Arrival) (fd : ℕ) (h : Header) (name : Bytes) (st : Station)
    → (answer_request a fd h name st).0 ≡ recorded a fd h name (wanted_state name st) st
unfolding answer_request send_heater_state recorded
answer_request-recorded a fd h name st = refl

wanted_state-recorded :
    (name : Bytes) (a : Arrival) (fd : ℕ) (h : Header) (other : Bytes) (s : HeaterState)
    (st : Station)
    → wanted_state name (recorded a fd h other s st) ≡ wanted_state name st
unfolding wanted_state recorded
wanted_state-recorded [] a fd h other s st = refl
wanted_state-recorded (c ∷ n) a fd h other s st = refl

-- What a message does to the members: nothing, or a request.
on_header-cases :
    (a : Arrival) (fd : ℕ) (h : Header) (payload : Bytes)
    → ((st : Station) → (on_header a fd h payload st).0 ≡ st)
      ⊎ ((name : Bytes) × ((st : Station)
            → (on_header a fd h payload st).0 ≡ (answer_request a fd h name st).0))
unfolding on_header
on_header-cases a fd h payload = elim (Bool-cases (not (h.version == 1))) [
  | inl e ↦ inl (λ st. rw e refl)
  | inr e ↦ elim (Bool-cases (h.msg_type == req_heater_state)) [
    | inr e' ↦ inl (λ st. rw e (rw e' refl))
    | inl e' ↦ elim (Option-cases (scan_name payload)) [
      | inl s ↦ inl (λ st. rw e (rw e' (rw (s, on_header) refl)))
      | inr (name, s) ↦ inr (checked_name name, λ st. rw e (rw e' (rw (s, on_header) refl)))
    ]
  ]
]

module _ (a b : Arrival) (f g : ℕ) (h i : Header) (other_fd : f ≢ g)
    (other_mac : mac_value h.mac ≢ mac_value i.mac) where
  recorded_comm :
      (n p : Bytes) (s t : HeaterState) (st : Station)
      → recorded a f h n s (recorded b g i p t st) ≡ recorded b g i p t (recorded a f h n s st)
  unfolding recorded
  recorded_comm n p s t st =
      rw
        (
          touch_comm f g a.steady_now b.steady_now st.connections other_fd,
          insert_comm (mac_value h.mac) (mac_value i.mac) h.counter i.counter st.heater_counter
              other_mac,
          insert_comm (mac_value h.mac) (mac_value i.mac)
              (update a.time_now s (new_heater n a.peer_ip))
              (update b.time_now t (new_heater p b.peer_ip)) st.heaters other_mac,
        )
        refl

  answer_request_comm :
      (n p : Bytes) (st : Station)
      → (answer_request a f h n (answer_request b g i p st).0).0
        ≡ (answer_request b g i p (answer_request a f h n st).0).0
  answer_request_comm n p st =
      let s = wanted_state n st in
      let t = wanted_state p st in
      rw (answer_request-recorded b g i p st, answer_request-recorded a f h n st)
        (rw
          (
            answer_request-recorded a f h n (recorded b g i p t st),
            answer_request-recorded b g i p (recorded a f h n s st),
            wanted_state-recorded n b g i p t st,
            wanted_state-recorded p a f h n s st,
          )
          (recorded_comm n p s t st))

  messages_comm :
      (x y : Bytes) (st : Station)
      → (on_header a f h x (on_header b g i y st).0).0
        ≡ (on_header b g i y (on_header a f h x st).0).0
  messages_comm x y st =
      let first : Station → Station = λ s. (on_header a f h x s).0 in
      let second : Station → Station = λ s. (on_header b g i y s).0 in
      elim (on_header-cases a f h x) [
        | inl e ↦ e (second st) ∙ ap second (sym (e st))
        | inr (n, e) ↦ elim (on_header-cases b g i y) [
          | inl e' ↦ ap first (e' st) ∙ sym (e' (first st))
          | inr (p, e') ↦
              e (second st)
              ∙ ap (λ (s : Station). (answer_request a f h n s).0) (e' st)
              ∙ answer_request_comm n p st
              ∙ sym (ap (λ (s : Station). (answer_request b g i p s).0) (e st))
              ∙ sym (e' (first st))
        ]
      ]

-- Two messages, of any bytes, from devices of different addresses over different connections leave
-- the same station behind in either order.
pub parse_message_comm :
    (a b : Arrival) (f g : ℕ) (x y : Bytes) (st : Station)
    → f ≢ g
    → mac_value (parse_header x).mac ≢ mac_value (parse_header y).mac
    → (parse_message a f x (parse_message b g y st).0).0
      ≡ (parse_message b g y (parse_message a f x st).0).0
unfolding parse_message
parse_message_comm a b f g x y st other_fd other_mac =
    messages_comm a b f g (parse_header x) (parse_header y) other_fd other_mac (drop 16 x)
      (drop 16 y) st
