-- ===== src/Services/Launch/Queue.antt =====
-- Every message that waits is taken, whatever else happens.
use iot_heater.Prelude.{
  ℕ, zero, suc, ◌+◌, ◌-◌, ◌≤◌, List, [], ◌∷◌, ◌++◌, ◌≡◌, refl, ap, ◌∙◌, sym, arith, length, drop,
  append-nil, append_assoc, length-drop,
}
use iot_heater.Text.{Bytes}
use iot_heater.BaseStation.State.{Station}
use iot_heater.BaseStation.Connections.{handle_new_device}
use iot_heater.BaseStation.Commands.Queue.{handle_sms_command}
use iot_heater.BaseStation.Process.{process}
use iot_heater.BaseStation.Process.Rounds.{process-drop}
use iot_heater.Services.Launch.{Event, round, connection, message, handle, main_loop}

-- The messages that arrive, in order, and the number of rounds.
abbrev pub arrivals : List Event → List (Bytes × Bytes)
arrivals [] = []
arrivals (round r ∷ es) = arrivals es
arrivals (connection fd now ∷ es) = arrivals es
arrivals (message from content ∷ es) = (from, content) ∷ arrivals es

abbrev pub rounds_in : List Event → ℕ
rounds_in [] = 0
rounds_in (round r ∷ es) = suc (rounds_in es)
rounds_in (connection fd now ∷ es) = rounds_in es
rounds_in (message from content ∷ es) = rounds_in es

module _ {ℓ} {A : Type ℓ} where
  drop_append_split :
      (n : ℕ) (xs ys : List A) → drop n (xs ++ ys) ≡ drop n xs ++ drop (n - length xs) ys
  drop_append_split zero xs ys = let e : 0 - length xs ≡ 0 = omega arith in rw e refl
  drop_append_split (suc n) [] ys = let e : suc n - 0 ≡ suc n = omega arith in rw e refl
  drop_append_split (suc n) (x ∷ xs) ys =
      let e : suc n - suc (length xs) ≡ n - length xs = omega arith in
      rw e (drop_append_split n xs ys)

  drop_none : (n : ℕ) → drop n (let l : List A = [] in l) ≡ []
  drop_none zero = refl
  drop_none (suc n) = refl

  drop-drop : (n k : ℕ) (xs : List A) → drop k (drop n xs) ≡ drop (n + k) xs
  drop-drop zero k xs = let e : 0 + k ≡ k = omega arith in rw e refl
  drop-drop (suc n) k [] = drop_none k ∙ sym (drop_none (suc n + k))
  drop-drop (suc n) k (x ∷ xs) =
      let e : suc n + k ≡ suc (n + k) = omega arith in rw e (drop-drop n k xs)

  -- What is dropped of the front is dropped of the whole.
  drop_front : (n : ℕ) (xs ys : List A) → (k : ℕ) × (drop n xs ++ ys ≡ drop k (xs ++ ys))
  drop_front n [] ys = (0, ap (λ (l : List A). l ++ ys) (drop_none n))
  drop_front zero (x ∷ xs) ys = (0, refl)
  drop_front (suc n) (x ∷ xs) ys = let (k, e) = drop_front n xs ys in (suc k, e)

-- A queue of old and new messages: with a round for each of the old ones, what is left are the last
-- ones of the new.
main_loop-queue :
    (es : List Event) (st : Station) (old new : List (Bytes × Bytes))
    → st.commands ≡ old ++ new
    → length old ≤ rounds_in es
    → (k : ℕ) × ((main_loop es st).0.commands ≡ drop k (new ++ arrivals es))
unfolding main_loop handle handle_new_device handle_sms_command
main_loop-queue [] st [] new q h = (0, q ∙ sym (append-nil new))
main_loop-queue [] st (m ∷ old) new q h = absurd (omega arith)
main_loop-queue (connection fd now ∷ es) st old new q h = main_loop-queue es _ old new q h
main_loop-queue (message from content ∷ es) st old new q h =
    let m : List (Bytes × Bytes) = (from, content) ∷ [] in
    let (k, e) =
      main_loop-queue es (handle_sms_command from content st) old (new ++ m)
        (ap (λ (l : List (Bytes × Bytes)). l ++ m) q ∙ append_assoc old new m) h in
    (k, e ∙ ap (λ (l : List (Bytes × Bytes)). drop k l) (append_assoc new m (arrivals es)))
main_loop-queue (round r ∷ es) st old new q h =
    let (k, taken) = process-drop r st in
    let j : ℕ = suc k - length old in
    let left =
      taken
      ∙ ap (λ (l : List (Bytes × Bytes)). drop (suc k) l) q
      ∙ drop_append_split (suc k) old new in
    let (k2, e) =
      main_loop-queue es (process r st).0 (drop (suc k) old) (drop j new) left
        (omega (arith, length-drop (suc k) old)) in
    let (k3, e3) = drop_front j new (arrivals es) in
    (
      k3 + k2,
      e ∙ ap (λ (l : List (Bytes × Bytes)). drop k2 l) e3 ∙ drop-drop k3 k2 (new ++ arrivals es),
    )

-- Whatever messages, connections and rounds of the main loop follow: once there were as many rounds
-- as messages waiting at the start, all of those have been taken, and what waits are the last ones
-- of the messages that arrived since, in order.
pub main_loop-serves :
    (es : List Event) (st : Station)
    → length st.commands ≤ rounds_in es
    → (k : ℕ) × ((main_loop es st).0.commands ≡ drop k (arrivals es))
main_loop-serves es st h = main_loop-queue es st st.commands [] (sym (append-nil st.commands)) h
