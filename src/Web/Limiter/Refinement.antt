-- ===== src/Web/Limiter/Refinement.antt =====
-- The limiter, which forgets the attempts that are too old, against the whole history of the attempts
-- that failed.
use landlord_cli.Prelude.{
  ==_iff, All, All-append, All-mono, Bool-cases, List, String, [], ap, arith, false, inl, inr, leb,
  length, ltb, nat_eq, refl, string_eq, sym, ℕ, ◌++◌, ◌+◌, ◌-◌, ◌<◌, ◌==◌, ◌∙◌, ◌∷◌, ◌≡◌, ◌≤◌,
}
use landlord_cli.Web.Limiter.{Attempts, clear_attempts, is_rate_limited, put, recent, record_failed}
use landlord_cli.Sql.{select-append}

-- What a client at an address has done.
pub data Event : Type 0 where
  check : String → ℕ → Event
  fail : String → ℕ → Event
  clear : String → Event

-- The times do not decrease, from `last` on.
abbrev pub Ordered : ℕ → List Event → Type 0
Ordered last [] = Unit
Ordered last (check ip now ∷ es) = (last ≤ now) × Ordered now es
Ordered last (fail ip now ∷ es) = (last ≤ now) × Ordered now es
Ordered last (clear ip ∷ es) = Ordered last es

abbrev pub last_time : ℕ → List Event → ℕ
last_time last [] = last
last_time last (check ip now ∷ es) = last_time now es
last_time last (fail ip now ∷ es) = last_time now es
last_time last (clear ip ∷ es) = last_time last es

-- the failures of an address since it was cleared
abbrev pub failures : List Event → Attempts → Attempts
failures [] h = h
failures (check ip now ∷ es) h = failures es h
failures (fail ip now ∷ es) h = failures es (put ip (h ip ++ now ∷ []) h)
failures (clear ip ∷ es) h = failures es (put ip [] h)

abbrev pub no_attempts : Attempts
no_attempts ip = []

put_self : (ip key : String) (h : Attempts) → put ip (h ip) h key ≡ h key
put_self ip key h = elim (Bool-cases (key == ip)) [
  | inl is ↦ rw is (ap h (sym ((==_iff key ip).0 is)))
  | inr is_not ↦ rw is_not refl
]

module _ (limit lockout : ℕ) where
  -- the dictionary after what has happened
  abbrev pub run_events : List Event → Attempts → Attempts
  run_events [] a = a
  run_events (check ip now ∷ es) a = run_events es (is_rate_limited limit lockout ip now a).1
  run_events (fail ip now ∷ es) a = run_events es (record_failed lockout ip now a)
  run_events (clear ip ∷ es) a = run_events es (clear_attempts ip a)

  pub recent-recent :
      (a b : ℕ) (times : List ℕ)
      → a ≤ b
      → recent lockout b (recent lockout a times) ≡ recent lockout b times
  recent-recent a b [] le = refl
  recent-recent a b (t ∷ times) le = let rest = recent-recent a b times le in ground arith

  -- From `last` on, the two have the same attempts that count.
  abbrev Agrees : ℕ → Attempts → Attempts → Type 0
  Agrees last a h =
      (ip : String) (now : ℕ) → last ≤ now → recent lockout now (a ip) ≡ recent lockout now (h ip)

  put-Agrees :
      (ip : String) (last : ℕ) (times whole : List ℕ) (a h : Attempts)
      → ((now : ℕ) → last ≤ now → recent lockout now times ≡ recent lockout now whole)
      → Agrees last a h
      → Agrees last (put ip times a) (put ip whole h)
  put-Agrees ip last times whole a h here same key now le = elim (Bool-cases (key == ip)) [
    | inl is ↦ rw is (here now le)
    | inr is_not ↦ rw is_not (same key now le)
  ]

  later-Agrees : (last now : ℕ) (a h : Attempts) → last ≤ now → Agrees last a h → Agrees now a h
  later-Agrees last now a h le same key later later_le = same key later (omega arith)

  check-Agrees :
      (ip : String) (last now : ℕ) (a h : Attempts)
      → last ≤ now
      → Agrees last a h
      → Agrees now (is_rate_limited limit lockout ip now a).1 h
  unfolding is_rate_limited
  check-Agrees ip last now a h le same key later later_le =
      let times = recent lockout now (a ip) in
      put-Agrees ip now times (h ip) a h
        (λ n n_le. recent-recent now n (a ip) n_le ∙ same ip n (omega arith))
        (later-Agrees last now a h le same) key later later_le
      ∙ ap (recent lockout later) (put_self ip key h)

  fail-Agrees :
      (ip : String) (last now : ℕ) (a h : Attempts)
      → last ≤ now
      → Agrees last a h
      → Agrees now (record_failed lockout ip now a) (put ip (h ip ++ now ∷ []) h)
  unfolding record_failed
  fail-Agrees ip last now a h le same =
      let times = recent lockout now (a ip) in
      put-Agrees ip now (times ++ now ∷ []) (h ip ++ now ∷ []) a h
        (λ n n_le.
          let kept = recent-recent now n (a ip) n_le ∙ same ip n (omega arith) in
          select-append (λ t. ltb (n - t) lockout) times (now ∷ [])
          ∙ ap (λ ts. ts ++ recent lockout n (now ∷ [])) kept
          ∙ sym (select-append (λ t. ltb (n - t) lockout) (h ip) (now ∷ [])))
        (later-Agrees last now a h le same)

  run_events-Agrees :
      (events : List Event) (last : ℕ) (a h : Attempts)
      → Ordered last events
      → Agrees last a h
      → Agrees (last_time last events) (run_events events a) (failures events h)
  unfolding clear_attempts
  run_events-Agrees [] last a h o same = same
  run_events-Agrees (check ip now ∷ es) last a h o same =
      run_events-Agrees es now (is_rate_limited limit lockout ip now a).1 h o.1
        (check-Agrees ip last now a h o.0 same)
  run_events-Agrees (fail ip now ∷ es) last a h o same =
      run_events-Agrees es now (record_failed lockout ip now a) (put ip (h ip ++ now ∷ []) h) o.1
        (fail-Agrees ip last now a h o.0 same)
  run_events-Agrees (clear ip ∷ es) last a h o same =
      run_events-Agrees es last (clear_attempts ip a) (put ip [] h) o
        (put-Agrees ip last [] [] a h (λ n le. refl) same)

  -- After any events in the order of their times, an address is refused exactly when the whole
  -- history of its failures since it was cleared has the limit of them within the lockout.
  pub is_rate_limited-run_events :
      (events : List Event) (ip : String) (now : ℕ)
      → Ordered 0 events
      → last_time 0 events ≤ now
      → (is_rate_limited limit lockout ip now (run_events events no_attempts)).0
        ≡ leb limit (length (recent lockout now (failures events no_attempts ip)))
  unfolding is_rate_limited
  is_rate_limited-run_events events ip now ordered le =
      let same = run_events-Agrees events 0 no_attempts no_attempts ordered (λ k n l. refl) in
      ap (λ times. leb limit (length times)) (same ip now le)

  put-All :
      (P : ℕ → Type 0) (ip key : String) (times : List ℕ) (h : Attempts)
      → All P times
      → All P (h key)
      → All P (put ip times h key)
  put-All P ip key times h all other = elim (Bool-cases (key == ip)) [
    | inl is ↦ rw is all
    | inr is_not ↦ rw is_not other
  ]

  failures-before :
      (events : List Event) (last : ℕ) (h : Attempts)
      → Ordered last events
      → ((key : String) → All (λ t. t ≤ last) (h key))
      → (ip : String) → All (λ t. t ≤ last_time last events) (failures events h ip)
  failures-before [] last h o before = before
  failures-before (check ip now ∷ es) last h o before = failures-before es now h o.1 λ key.
      All-mono (λ t. t ≤ last) (λ t. t ≤ now) (λ t t_le. let le = o.0 in omega arith) (h key)
        (before key)
  failures-before (fail ip now ∷ es) last h o before =
      let all : (key : String) → All (λ t. t ≤ now) (h key) = λ key.
        All-mono (λ t. t ≤ last) (λ t. t ≤ now) (λ t t_le. let le = o.0 in omega arith) (h key)
          (before key) in
      failures-before es now (put ip (h ip ++ now ∷ []) h) o.1 λ key.
        put-All (λ t. t ≤ now) ip key (h ip ++ now ∷ []) h
          (All-append (λ t. t ≤ now) (h ip) (now ∷ []) (all ip) (omega arith, tt)) (all key)
  failures-before (clear ip ∷ es) last h o before =
      failures-before es last (put ip [] h) o
        λ key. put-All (λ t. t ≤ last) ip key [] h tt (before key)

  none_recent :
      (last now : ℕ) (times : List ℕ)
      → last + lockout ≤ now
      → All (λ t. t ≤ last) times
      → recent lockout now times ≡ []
  none_recent last now [] le all = refl
  none_recent last now (t ∷ times) le all =
      let rest = none_recent last now times le all.1 in let t_le = all.0 in ground arith

  -- Whatever has happened, in the order of the times, no address is refused any more when the lockout
  -- has passed since the last event, for a limit that is positive.
  pub is_rate_limited_ends :
      (events : List Event) (ip : String) (now : ℕ)
      → Ordered 0 events
      → last_time 0 events + lockout ≤ now
      → 0 < limit
      → (is_rate_limited limit lockout ip now (run_events events no_attempts)).0 ≡ false
  is_rate_limited_ends events ip now ordered le positive =
      let gone =
        none_recent (last_time 0 events) now (failures events no_attempts ip) le
          (failures-before events 0 no_attempts ordered (λ key. tt) ip) in
      let whole = is_rate_limited-run_events events ip now ordered (omega arith) in
      whole ∙ rw gone (ground arith)
