-- ===== src/Qemu/Watched.antt =====
-- src/qemu.rs: when the boot test ends, and when it reports a boot.
use leviso.Base.{
  ◌≡◌, refl, ◌≢◌, List, [], ◌∷◌, ℕ, ◌*◌, ◌<◌, true, false, Option, some, none, String, All, arith,
  ◌∙◌,
}
use leviso.Text.{Text, codes, contains_text}
use leviso.Qemu.{
  Event, Round, Watch, Verdict, going, success, failed, timed_out, stalled, exited, line, quiet,
  disconnected, round, watch, first_pattern, failure_patterns, success_patterns, on_line, next,
  last_lines, decided, on_event,
}

-- Some round comes after the time that is allowed.
pub data Expires (timeout_secs : ℕ) : List Round → Type 0 where
  expired_now :
      (r : Round) (rs : List Round)
      → timeout_secs * 1000 < r.elapsed
      → Expires timeout_secs (r ∷ rs)
  later : (r : Round) (rs : List Round) → Expires timeout_secs rs → Expires timeout_secs (r ∷ rs)

abbrev pub HasEnded : Verdict → Type 0
HasEnded v = (w : Watch) → v ≢ going w

next-HasEnded :
    (v : Verdict) (k : Watch → Verdict) → ((x : Watch) → HasEnded (k x)) → HasEnded (next v k)
next-HasEnded (going x) k h = h x
next-HasEnded (success p) k h = λ w e. cc
next-HasEnded (failed p ls) k h = λ w e. cc
next-HasEnded (timed_out ls) k h = λ w e. cc
next-HasEnded (stalled s) k h = λ w e. cc
next-HasEnded (exited ls) k h = λ w e. cc

-- A line in which none of the patterns occurs
abbrev pub HasNone : List String → Text → Type 0
HasNone patterns l = All (λ p. contains_text (codes p) l ≡ false) patterns

first_pattern-some :
    (l : Text) (ps : List String) (p : String)
    → first_pattern l ps ≡ some p
    → contains_text (codes p) l ≡ true
unfolding first_pattern
first_pattern-some l [] p h = cc
first_pattern-some l (q ∷ ps) p h = ground (arith, first_pattern-some l ps p)

first_pattern-none : (l : Text) (ps : List String) → first_pattern l ps ≡ none → HasNone ps l
unfolding first_pattern
first_pattern-none l [] h = tt
first_pattern-none l (q ∷ ps) h = ground (arith, first_pattern-none l ps)

-- An event that decides nothing
pub data Calm : Event → Type 0 where
  nothing : Calm quiet
  some_line : (l : Text) → HasNone failure_patterns l → HasNone success_patterns l → Calm (line l)

-- Rounds that decide nothing, and then a line with the pattern and without a sign of failure.
pub data Booted (p : String) : List Round → Type 0 where
  here :
      (r : Round) (rs : List Round) (l : Text)
      → r.event ≡ line l
      → HasNone failure_patterns l
      → contains_text (codes p) l ≡ true
      → Booted p (r ∷ rs)
  after : (r : Round) (rs : List Round) → Calm r.event → Booted p rs → Booted p (r ∷ rs)

module _ (timeout_secs : ℕ) where
  expired :
      (r : Round) (w : Watch)
      → timeout_secs * 1000 < r.elapsed
      → round timeout_secs r w ≡ timed_out (last_lines 20 w.output_buffer)
  unfolding round
  expired r w h = ground arith

  expired-HasEnded :
      (v : Verdict) (k : Watch → Verdict) (ls : List Text) → v ≡ timed_out ls → HasEnded (next v k)
  expired-HasEnded (going x) k ls e = absurd cc
  expired-HasEnded (success p) k ls e = λ w h. cc
  expired-HasEnded (failed p ms) k ls e = λ w h. cc
  expired-HasEnded (timed_out ms) k ls e = λ w h. cc
  expired-HasEnded (stalled s) k ls e = λ w h. cc
  expired-HasEnded (exited ms) k ls e = λ w h. cc

  -- The boot test ends, whatever the machine prints or does not print, once a round comes after the
  -- time that is allowed.
  pub watch-HasEnded :
      (rs : List Round) (w : Watch) → Expires timeout_secs rs → HasEnded (watch timeout_secs rs w)
  unfolding watch
  watch-HasEnded [] w e = elim e [ ]
  watch-HasEnded (r ∷ rs) w (expired_now _ _ h) =
      expired-HasEnded (round timeout_secs r w) _ _ (expired r w h)
  watch-HasEnded (r ∷ rs) w (later _ _ e) =
      next-HasEnded (round timeout_secs r w) (watch timeout_secs rs) (λ x. watch-HasEnded rs x e)

  decided-going :
      (x v : Watch) (f g : Option String) → decided x f g ≡ going v → (f ≡ none) × (g ≡ none)
  decided-going x v (some p) g h = absurd cc
  decided-going x v none (some p) h = absurd cc
  decided-going x v none none h = (refl, refl)

  decided-success :
      (x : Watch) (p : String) (f g : Option String)
      → decided x f g ≡ success p
      → (f ≡ none) × (g ≡ some p)
  decided-success x p (some q) g h = absurd cc
  decided-success x p none (some q) h = (refl, cc)
  decided-success x p none none h = absurd cc

  -- A round that goes on was calm, and a round that ends with success has the pattern.
  on_event-going : (at : ℕ) (e : Event) (w v : Watch) → on_event at e w ≡ going v → Calm e
  unfolding on_line
  on_event-going at quiet w v h = nothing
  on_event-going at disconnected w v h = absurd cc
  on_event-going at (line l) w v h =
      let (f, g) = decided-going _ v _ _ h in
      some_line l (first_pattern-none l failure_patterns f)
        (first_pattern-none l success_patterns g)

  on_event-success :
      (at : ℕ) (e : Event) (w : Watch) (p : String)
      → on_event at e w ≡ success p
      → (l : Text) × (e ≡ line l) × HasNone failure_patterns l × (contains_text (codes p) l ≡ true)
  unfolding on_line
  on_event-success at quiet w p h = absurd cc
  on_event-success at disconnected w p h = absurd cc
  on_event-success at (line l) w p h =
      let (f, g) = decided-success _ p _ _ h in
      (l, refl, first_pattern-none l failure_patterns f, first_pattern-some l success_patterns p g)

  round-going :
      (r : Round) (w v : Watch)
      → round timeout_secs r w ≡ going v
      → on_event r.received r.event w ≡ going v
  unfolding round
  round-going r w v h = ground arith

  round-success :
      (r : Round) (w : Watch) (p : String)
      → round timeout_secs r w ≡ success p
      → on_event r.received r.event w ≡ success p
  unfolding round
  round-success r w p h = ground arith

  -- From the verdict of the first round
  from_round :
      (r : Round) (rs : List Round) (w : Watch) (p : String) (v : Verdict)
      → round timeout_secs r w ≡ v
      → ((x : Watch) → watch timeout_secs rs x ≡ success p → Booted p rs)
      → next v (watch timeout_secs rs) ≡ success p
      → Booted p (r ∷ rs)
  from_round r rs w p (going x) e ih h =
      after r rs (on_event-going _ r.event w x (round-going r w x e)) (ih x h)
  from_round r rs w p (success q) e ih h =
      let (l, a, b, c) = on_event-success _ r.event w p (round-success r w p (e ∙ h)) in
      here r rs l a b c
  from_round r rs w p (failed q ls) e ih h = absurd cc
  from_round r rs w p (timed_out ls) e ih h = absurd cc
  from_round r rs w p (stalled s) e ih h = absurd cc
  from_round r rs w p (exited ls) e ih h = absurd cc

  -- The boot test reports a pattern only for a line that contains it and none of the failure
  -- patterns, and only if no line before it contained a pattern of success or of failure.
  pub watch-Booted :
      (rs : List Round) (w : Watch) (p : String) → watch timeout_secs rs w ≡ success p → Booted p rs
  unfolding watch
  watch-Booted [] w p h = absurd cc
  watch-Booted (r ∷ rs) w p h =
      from_round r rs w p (round timeout_secs r w) refl (λ x. watch-Booted rs x p) h
