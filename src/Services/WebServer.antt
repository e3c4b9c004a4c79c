-- ===== src/Services/WebServer.antt =====
-- `WebServer` of base_station/src/web_server.cpp: the daemon of libmicrohttpd that serves the page.
-- A daemon is a number; `stopped` lists those that `MHD_stop_daemon` was called on, in order.
use iot_heater.Prelude.{
  ℕ, ◌+◌, List, [], ◌∷◌, ◌++◌, Option, none, some, ◌==◌, if◌then◌else◌, ◌≡◌, ◌≢◌, refl, arith, map,
  length, replicate, take, append_assoc, All,
}
use iot_heater.Text.{Bytes}

pub record Server : Type 0 where
  pub daemon : Option ℕ
  pub stopped : List ℕ

-- The constructor.
unfoldable pub created : Server
created = record { daemon = none; stopped = [] }

pub data StartResult : Type 0 where
  already_running started not_started : StartResult

-- `start`; the argument is what `MHD_start_daemon` gives. A failure throws.
unfoldable pub start : Option ℕ → Server → Server × StartResult
start handle s = elim s.daemon [
  | some d ↦ (s, already_running)
  | none ↦ elim handle [
    | none ↦ (s, not_started)
    | some d ↦ (record s { daemon = some d }, started)
  ]
]

-- `stop` keeps the pointer.
unfoldable pub stop : Server → Server
stop s = elim s.daemon [ none ↦ s | some d ↦ record s { stopped = s.stopped ++ d ∷ [] } ]

-- The destructor.
unfoldable pub destroy : Server → Server
unfolding stop
destroy s = stop s

-- `strcpy` into a buffer of `size` bytes: up to the first zero byte, and that byte; `none` is a
-- byte that was never written.
unfoldable pub copy_string : Bytes → List (Option ℕ) → List (Option ℕ)
copy_string s [] = []
copy_string [] (b ∷ buf) = some 0 ∷ buf
copy_string (c ∷ s) (b ∷ buf) =
    let rest = copy_string s buf in if c == 0 then some 0 ∷ buf else some c ∷ rest

-- `answerConnection`: the bytes that are handed over as the response, `length page` of a buffer that
-- is one byte longer.
unfoldable pub answer : Bytes → List (Option ℕ)
unfolding copy_string
answer page = take (length page) (copy_string page (replicate (length page + 1) none))

-- A page without a zero byte is handed over as it is.
pub answer-page : (page : Bytes) → All (λ c. c ≢ 0) page → answer page ≡ map some page
unfolding answer copy_string
answer-page [] h = refl
answer-page (c ∷ page) h = ground (arith, answer-page page h.1, h.0)

-- A daemon that is started, stopped and destroyed with its server is stopped twice.
pub stopped_twice :
    (handle : ℕ) (s : Server)
    → s.daemon ≡ none
    → (destroy (stop (start (some handle) s).0)).stopped ≡ s.stopped ++ handle ∷ handle ∷ []
unfolding start stop destroy
stopped_twice handle s e = rw (e, start) (rw append_assoc refl)
