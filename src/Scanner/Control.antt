-- ===== src/Scanner/Control.antt =====
-- The scans that the control plane and the periodic loop start, as steps of the service.
use see_no_evil.Prelude.{
  ℕ, zero, suc, ◌+◌, ◌≤◌, ◌≡◌, refl, ◌⊎◌, inl, inr, Bool, true, false, ◌&&◌, Option, none, some,
  List, [], ◌∷◌, if◌then◌else◌, Bool-cases, arith,
}
use see_no_evil.Text.{Text, codes, eqb}
use see_no_evil.Scanner.{Headers, check_auth, ScanResult, is_ok}

-- The lock, the scans that run, and all that were started.
pub record Service : Type 0 where
  pub locked : Bool
  pub running : ℕ
  pub started : ℕ

abbrev pub idle : Service
idle = record { locked = false; running = 0; started = 0 }

-- A POST, a turn of the periodic loop, or the end of a scan, whatever became of it.
pub data Event : Type 0 where
  post : Text → Headers → Event
  turn ended : Event

-- `_scan_lock.acquire(blocking=False)`; a scan that does not get it is answered busy at once.
abbrev pub acquire : Service → Service
acquire s =
    if s.locked
    then s
    else record { locked = true; running = suc s.running; started = suc s.started }

-- `_scan_lock.release()` in `finally`, which only a scan that runs reaches.
abbrev pub released : ℕ → Service → Service
released zero s = s
released (suc n) s = record s { locked = false; running = n }

-- What a POST leads to: a scan, a refusal with a status, or an exception, after which the server
-- closes the connection.
pub data Posted : Type 0 where
  starts dropped : Posted
  refused : ℕ → Posted

-- A POST to /scan, of the token's check.
abbrev pub on_check : Bool → Option Bool → Posted
on_check initialised none = dropped
on_check initialised (some fine) =
    if fine then if initialised then starts else refused 503 else refused 401

unfoldable pub do_post : List (Option Text) → Bool → Text → Headers → Posted
unfolding check_auth eqb
do_post tokens initialised path headers =
    if eqb path (codes "/scan")
    then on_check initialised (check_auth tokens headers)
    else refused 404

abbrev pub check_passed : Option Bool → Bool
check_passed none = false
check_passed (some b) = b

-- `self._json(200 if result.get("ok") else 500, result)`.
abbrev pub scan_status : ScanResult → ℕ
scan_status result = if is_ok result then 200 else 500

module _ (tokens : List (Option Text)) (initialised : Bool) where
  abbrev pub posted : Service → Posted → Service
  posted s starts = acquire s
  posted s dropped = s
  posted s (refused code) = s

  abbrev pub on_event : Event → Service → Service
  on_event (post path headers) s = posted s (do_post tokens initialised path headers)
  on_event turn s = acquire s
  on_event ended s = released s.running s

  unfoldable pub run : List Event → Service → Service
  run [] s = s
  run (e ∷ events) s = run events (on_event e s)

  -- A turn of the loop, or a POST to /scan with the token that is configured.
  abbrev pub is_authorised : Event → Bool
  is_authorised (post path headers) =
      eqb path (codes "/scan") && check_passed (check_auth tokens headers)
  is_authorised turn = true
  is_authorised ended = false

  abbrev pub count_of : Event → ℕ
  count_of e = if is_authorised e then 1 else 0

  abbrev pub authorised_count : List Event → ℕ
  authorised_count [] = 0
  authorised_count (e ∷ events) = count_of e + authorised_count events

  -- The lock is held exactly by the one scan that runs.
  abbrev IsHeld : Service → Type 0
  IsHeld s = s.running ≡ (if s.locked then 1 else 0)

  at_most_one : (s : Service) → IsHeld s → s.running ≤ 1
  at_most_one s h = ground (arith, h)

  acquire-IsHeld :
      (s : Service) → IsHeld s → IsHeld (acquire s) × ((acquire s).started ≤ 1 + s.started)
  acquire-IsHeld s h = elim (Bool-cases s.locked) [
    | inl taken ↦ rw taken (rw taken at h, omega arith)
    | inr free ↦ rw free (ground (arith, h, free), omega arith)
  ]

  on_check_sound : (o : Option Bool) → on_check initialised o ≡ starts → check_passed o ≡ true
  on_check_sound none e = cc
  on_check_sound (some fine) e = ground arith

  do_post_sound :
      (path : Text) (headers : Headers)
      → do_post tokens initialised path headers ≡ starts
      → is_authorised (post path headers) ≡ true
  unfolding do_post
  do_post_sound path headers e = elim (Bool-cases (eqb path (codes "/scan"))) [
    | inl scan ↦ rw scan (on_check_sound (check_auth tokens headers) (rw scan at e))
    | inr other ↦ absurd (ground arith)
  ]

  released-IsHeld :
      (n : ℕ) (s : Service)
      → s.running ≡ n
      → IsHeld s
      → IsHeld (released n s) × ((released n s).started ≤ 0 + s.started)
  released-IsHeld zero s same h = (h, omega arith)
  released-IsHeld (suc n) s same h = elim (Bool-cases s.locked) [
    | inl taken ↦ (ground (arith, rw taken at h, same), omega arith)
    | inr free ↦ absurd (ground (arith, rw free at h, same))
  ]

  -- One more scan where the event is authorised.
  abbrev IsStep : Event → Service → Service → Type 0
  IsStep e s s' = IsHeld s' × (s'.started ≤ count_of e + s.started)

  Posted-cases : (p : Posted) → (p ≡ starts) ⊎ ((s : Service) → posted s p ≡ s)
  Posted-cases starts = inl refl
  Posted-cases dropped = inr (λ s. refl)
  Posted-cases (refused code) = inr (λ s. refl)

  posted-IsStep :
      (path : Text) (headers : Headers) (s : Service)
      → IsHeld s
      → IsStep (post path headers) s (posted s (do_post tokens initialised path headers))
  posted-IsStep path headers s h = elim (Posted-cases (do_post tokens initialised path headers)) [
    | inl through ↦
        let (held, more) = acquire-IsHeld s h in
        rw (through, do_post_sound path headers through) (held, more)
    | inr same ↦ rw (same s) (h, omega arith)
  ]

  on_event-IsStep : (e : Event) (s : Service) → IsHeld s → IsStep e s (on_event e s)
  on_event-IsStep (post path headers) s h = posted-IsStep path headers s h
  on_event-IsStep turn s h = acquire-IsHeld s h
  on_event-IsStep ended s h = released-IsHeld s.running s refl h

  run-IsHeld :
      (events : List Event) (s : Service)
      → IsHeld s
      → IsHeld (run events s) × ((run events s).started ≤ authorised_count events + s.started)
  unfolding run
  run-IsHeld [] s h = (h, omega arith)
  run-IsHeld (e ∷ events) s h =
      let (held, few) = on_event-IsStep e s h in
      let (held', few') = run-IsHeld events (on_event e s) held in (held', omega (arith, few, few'))

  -- However requests to the control plane, turns of the loop and ends of scans interleave, no two
  -- scans run at once, and no more scans were started than there were turns and requests to /scan with
  -- the configured token.
  pub run-authorised_count :
      (events : List Event)
      → ((run events idle).running ≤ 1) × ((run events idle).started ≤ authorised_count events)
  run-authorised_count events =
      let (held, few) = run-IsHeld events idle refl in
      (at_most_one (run events idle) held, omega (arith, few))
