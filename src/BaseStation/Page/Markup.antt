-- ===== src/BaseStation/Page/Markup.antt =====
-- The tags of the page are those of the code.
use iot_heater.Prelude.{
  ℕ, ◌+◌, ◌*◌, [], ◌∷◌, ◌++◌, ◌≡◌, refl, arith, All, length, suc, if◌then◌else◌, ◌==◌, ◌∙◌,
}
use iot_heater.OrdMap.{Map}
use iot_heater.Text.{Bytes, codes}
use iot_heater.Text.Lines.{Free}
use iot_heater.Text.{hex_byte}
use iot_heater.Wire.{Mac, HeaterState, off, defrost, eco, comfort}
use iot_heater.BaseStation.State.{Station, Heater, state_label}
use iot_heater.BaseStation.Messages.{mac_str}
use iot_heater.BaseStation.Checks.{mac_of_value}
use iot_heater.BaseStation.Page.{
  Machine, shown_name, row, rows, device_text, build_webpage, page_head, table_head,
}

-- The number of `<` in a text.
unfoldable pub count_tags : Bytes → ℕ
count_tags [] = 0
count_tags (c ∷ s) = if c == b'<' then suc (count_tags s) else count_tags s

count_tags-append : (a b : Bytes) → count_tags (a ++ b) ≡ count_tags a + count_tags b
unfolding count_tags
count_tags-append [] b = omega arith
count_tags-append (c ∷ a) b = ground (arith, count_tags-append a b)

pub count_tags-Free : (s : Bytes) → Free b'<' s → count_tags s ≡ 0
unfolding count_tags
count_tags-Free [] f = refl
count_tags-Free (c ∷ s) f = ground (arith, count_tags-Free s f.1, f.0)

-- The counts of two texts, one behind the other.
both : (n k : ℕ) (a b : Bytes) → count_tags a ≡ n → count_tags b ≡ k → count_tags (a ++ b) ≡ n + k
both n k a b p q = count_tags-append a b ∙ omega (arith, p, q)

hex_byte-tags : (b : ℕ) → count_tags (hex_byte b) ≡ 0
unfolding hex_byte count_tags
hex_byte-tags b = ground arith

colon-tags : (b : ℕ) (s : Bytes) → count_tags s ≡ 0 → count_tags (hex_byte b ++ b':' ∷ s) ≡ 0
colon-tags b s z =
    both 0 0 (hex_byte b) (b':' ∷ s) (hex_byte-tags b) (unfold count_tags in z) ∙ omega arith

mac_str-tags : (m : Mac) → count_tags (mac_str m) ≡ 0
unfolding mac_str
mac_str-tags m = colon-tags m.b0 _ (
    colon-tags m.b1 _
      (colon-tags m.b2 _ (colon-tags m.b3 _ (colon-tags m.b4 _ (hex_byte-tags m.b5)))))

state_label-tags : (s : HeaterState) → count_tags (state_label s) ≡ 0
unfolding count_tags
state_label-tags off = refl
state_label-tags defrost = refl
state_label-tags eco = refl
state_label-tags comfort = refl

shown_name-tags : (name : Bytes) → Free b'<' name → count_tags (shown_name name) ≡ 0
shown_name-tags [] f = unfold count_tags in refl
shown_name-tags (c ∷ s) f = count_tags-Free (c ∷ s) f

-- What devices have sent: names and addresses without a `<`.
abbrev pub PlainHeaters : Map ℕ Heater → Type 0
PlainHeaters m = All (λ e. Free b'<' e.1.name × Free b'<' e.1.ip_addr) m

row-tags :
    (time_text : ℕ → Bytes) (mac : ℕ) (h : Heater)
    → Free b'<' h.name
    → Free b'<' h.ip_addr
    → Free b'<' (time_text h.last_request_timestamp)
    → count_tags (row time_text mac h) ≡ 14
unfolding row
row-tags time_text mac h n i t = both 2 12 (codes "<tr><td>") _ (unfold count_tags in refl) (
    both 0 12 (shown_name h.name) _ (shown_name-tags h.name n) (
      both 2 10 (codes "</td><td>") _ (unfold count_tags in refl) (
        both 0 10 (mac_str (mac_of_value mac)) _ (mac_str-tags (mac_of_value mac)) (
          both 3 7 (codes "</td><td><a href=\"http://") _ (unfold count_tags in refl) (
            both 0 7 h.ip_addr _ (count_tags-Free h.ip_addr i) (
              both 0 7 (codes "\">") _ (unfold count_tags in refl) (
                both 0 7 h.ip_addr _ (count_tags-Free h.ip_addr i) (
                  both 3 4 (codes "</a></td><td>") _ (unfold count_tags in refl) (
                    both 0 4 (state_label h.state) _ (state_label-tags h.state) (
                      both 2 2 (codes "</td><td>") _ (unfold count_tags in refl) (
                        both 0 2 (time_text h.last_request_timestamp) (codes "</td></tr>")
                          (count_tags-Free _ t) (unfold count_tags in refl))))))))))))

rows-tags :
    (time_text : ℕ → Bytes) (m : Map ℕ Heater)
    → ((t : ℕ) → Free b'<' (time_text t))
    → PlainHeaters m
    → count_tags (rows time_text m) ≡ 14 * length m
unfolding rows
rows-tags time_text [] f p = unfold count_tags in omega arith
rows-tags time_text ((mac, h) ∷ m) f p =
    both 14 (14 * length m) (row time_text mac h) (rows time_text m)
      (row-tags time_text mac h p.0.0 p.0.1 (f h.last_request_timestamp))
      (rows-tags time_text m f p.1)
    ∙ omega arith

-- The page has the tags of its frame, those of the part on the machine, and fourteen for each heater
-- listed, if names, addresses and times hold no `<`.
pub build_webpage-tags :
    (m : Machine) (st : Station)
    → ((t : ℕ) → Free b'<' (m.time_text t))
    → PlainHeaters st.heaters
    → count_tags (build_webpage m st) ≡ 31 + count_tags (device_text m) + 14 * length st.heaters
unfolding build_webpage
build_webpage-tags m st f p =
    let d = count_tags (device_text m) in
    let r = 14 * length st.heaters in
    let tail : count_tags (rows m.time_text st.heaters ++ codes "</table></body></html>") ≡ r + 3 =
      both r 3 (rows m.time_text st.heaters) (codes "</table></body></html>")
        (rows-tags m.time_text st.heaters f p) (unfold count_tags in refl) in
    both 12 (d + (2 + (14 + (r + 3)))) page_head _ (unfold count_tags in refl) (
      both d (2 + (14 + (r + 3))) (device_text m) _ refl (
        both 2 (14 + (r + 3)) (codes "<h2>Heaters</h2>Default heater state: ") _
          (unfold count_tags in refl)
          (both 0 (14 + (r + 3)) (state_label st.heater_default_state) _
              (state_label-tags st.heater_default_state)
              (both 14 (r + 3) table_head _ (unfold count_tags in refl) tail)
            ∙ omega arith)))
    ∙ omega arith
