-- ===== src/DirectPort/Watch/Stability.antt =====
-- What the loop has seen where it ends with the data, and that it ends so.
use mathlib.Core.Path.{subst}
use hosted_replay_harness.DirectPort.Safe.{Library, raised, observed, Inspected, diagnosed}
use hosted_replay_harness.Value.{Fields}
use hosted_replay_harness.Prelude.{
  List, Option, String, [], leb, ltb, none, some, suc, true, zero, ℕ, ◌+◌, ◌∷◌, ◌≡◌, ◌⊎◌, Bool,
  Bytes, false, if◌then◌else◌, inl, inr, refl, any, sym, ◌||◌,
}
use hosted_replay_harness.DirectPort.Watch.{
  Watched, final, health_of, inspected, watch, watch_from, well, Attempt, broken, crashed,
  failed_with, judged, seen, since_or, terminal_of, unwell, Condition,
}
use hosted_replay_harness.DirectPort.Safe.StateLines.{inspection_state_lines}

final_same : {fs gs : Fields} → final fs ≡ final gs → fs ≡ gs
final_same h = cc

module _ (lib : Library) (container_id : String) (deadline stable : ℕ) where
  -- In time, the attempt saw the container, and it was well.
  pub record SawWell (attempt_index : ℕ) (attempt : Attempt) (fs : Fields) : Type 0 where
    pub in_time : ltb attempt.started deadline ≡ true
    pub seen_fields : inspected lib container_id attempt (suc attempt_index) ≡ observed fs
    pub was_well : health_of fs ≡ some well

  -- From a attempt on, every attempt saw the container well, up to one that saw `fs`, whose second clock
  -- is at least `stable` behind `since`.
  pub data WellFor (since : ℕ) : ℕ → List Attempt → Fields → Type 0 where
    enough :
        {i : ℕ} {attempt : Attempt} {attempts : List Attempt} {fs : Fields}
        → SawWell i attempt fs
        → leb (since + stable) attempt.checked ≡ true
        → WellFor since i (attempt ∷ attempts) fs
    longer :
        {i : ℕ} {attempt : Attempt} {attempts : List Attempt} {fs gs : Fields}
        → SawWell i attempt gs
        → WellFor since (suc i) attempts fs
        → WellFor since i (attempt ∷ attempts) fs

  -- `WellFor` from a later attempt, and since its first clock
  pub data AtLastWell : ℕ → List Attempt → Fields → Type 0 where
    from_here :
        {i : ℕ} {attempt : Attempt} {attempts : List Attempt} {fs : Fields}
        → WellFor attempt.marked i (attempt ∷ attempts) fs
        → AtLastWell i (attempt ∷ attempts) fs
    from_later :
        {i : ℕ} {attempt : Attempt} {attempts : List Attempt} {fs : Fields}
        → AtLastWell (suc i) attempts fs
        → AtLastWell i (attempt ∷ attempts) fs

  abbrev Since : Option ℕ → ℕ → List Attempt → Fields → Type 0
  Since none i attempts fs = AtLastWell i attempts fs
  Since (some zero) i attempts fs = AtLastWell i attempts fs
  Since (some (suc n)) i attempts fs = WellFor (suc n) i attempts fs ⊎ AtLastWell i attempts fs

  abbrev run_from : ℕ → Option ℕ → List Attempt → Watched
  run_from i since attempts = watch_from lib container_id deadline stable i since attempts

  module _ (i : ℕ) (attempt : Attempt) (attempts : List Attempt) (fs : Fields) where
    later-Since :
        (since : Option ℕ) → AtLastWell (suc i) attempts fs → Since since i (attempt ∷ attempts) fs
    later-Since none w = from_later w
    later-Since (some zero) w = from_later w
    later-Since (some (suc n)) w = inr (from_later w)

    enough-Since :
        (since : Option ℕ)
        → SawWell i attempt fs
        → leb (since_or since attempt.marked + stable) attempt.checked ≡ true
        → Since since i (attempt ∷ attempts) fs
    enough-Since none s h = from_here (enough s h)
    enough-Since (some zero) s h = from_here (enough s h)
    enough-Since (some (suc n)) s h = inl (enough s h)

    marked-Since :
        {gs : Fields} (m : ℕ)
        → attempt.marked ≡ m
        → SawWell i attempt gs
        → Since (some m) (suc i) attempts fs
        → AtLastWell i (attempt ∷ attempts) fs
    marked-Since zero e s w = from_later w
    marked-Since (suc n) e s (inl w) =
        from_here (subst (λ n. WellFor n i (attempt ∷ attempts) fs) (sym e) (longer s w))
    marked-Since (suc n) e s (inr w) = from_later w

    longer-Since :
        {gs : Fields} (since : Option ℕ)
        → SawWell i attempt gs
        → Since (some (since_or since attempt.marked)) (suc i) attempts fs
        → Since since i (attempt ∷ attempts) fs
    longer-Since none s w = marked-Since attempt.marked refl s w
    longer-Since (some zero) s w = marked-Since attempt.marked refl s w
    longer-Since (some (suc n)) s (inl w) = inl (longer s w)
    longer-Since (some (suc n)) s (inr w) = inr (from_later w)

    module _ (in_time : ltb attempt.started deadline ≡ true) (since : Option ℕ) where
      module _ (again : Watched) (marked_at : ℕ → Watched)
          (none_later : again ≡ final fs → AtLastWell (suc i) attempts fs)
          (some_later : (s : ℕ) → marked_at s ≡ final fs → Since (some s) (suc i) attempts fs) where
        well-Since :
            (gs : Fields) (t : Bool)
            → SawWell i attempt gs
            → leb (since_or since attempt.marked + stable) attempt.checked ≡ t
            → (if t then final gs else marked_at (since_or since attempt.marked)) ≡ final fs
            → Since since i (attempt ∷ attempts) fs
        well-Since gs true s e h = enough-Since since (subst (SawWell i attempt) (final_same h) s) e
        well-Since gs false s e h = longer-Since since s (some_later _ h)

        judged-Since :
            (gs : Fields) (m : Option Condition)
            → inspected lib container_id attempt (suc i) ≡ observed gs
            → health_of gs ≡ m
            → judged lib container_id deadline stable gs attempt since again marked_at m ≡ final fs
            → Since since i (attempt ∷ attempts) fs
        judged-Since gs none e g h = cc
        judged-Since gs (some (broken code)) e g h = cc
        judged-Since gs (some unwell) e g h = later-Since since (none_later h)
        judged-Since gs (some well) e g h =
            well-Since gs _ (record { in_time = in_time; seen_fields = e; was_well = g }) refl h

        seen-Since :
            (r : Inspected)
            → inspected lib container_id attempt (suc i) ≡ r
            → seen lib container_id deadline stable attempt since again marked_at r ≡ final fs
            → Since since i (attempt ∷ attempts) fs
        seen-Since (observed gs) e h = judged-Since gs (health_of gs) e refl h
        seen-Since (diagnosed gs) e h =
            printed (inspection_state_lines (record lib { docker = attempt.docker }) gs) h
          where
            printed :
                (m : Option (List Bytes))
                → elim m as (λ _. Watched) [
                  | none ↦ crashed
                  | some lines ↦ failed_with (terminal_of gs)
                ]
                  ≡ final fs
                → Since since i (attempt ∷ attempts) fs
            printed none h = cc
            printed (some lines) h = cc
        seen-Since raised e h = cc

  watch_from-Since :
      (i : ℕ) (since : Option ℕ) (attempts : List Attempt) (fs : Fields)
      → run_from i since attempts ≡ final fs
      → Since since i attempts fs
  unfolding watch_from
  watch_from-Since i since [] fs h = cc
  watch_from-Since i since (attempt ∷ attempts) fs h =
      by_time (ltb attempt.started deadline) refl (watch_from-Since (suc i) none attempts fs)
        (λ s. watch_from-Since (suc i) (some s) attempts fs) h
    where
      by_time :
          (t : Bool)
          → ltb attempt.started deadline ≡ t
          → (run_from (suc i) none attempts ≡ final fs → AtLastWell (suc i) attempts fs)
          → ((s : ℕ)
              → run_from (suc i) (some s) attempts ≡ final fs
              → Since (some s) (suc i) attempts fs)
          → (if t
              then seen lib container_id deadline stable attempt since
                  (run_from (suc i) none attempts)
                  (λ s. run_from (suc i) (some s) attempts)
                  (inspected lib container_id attempt (suc i))
              else failed_with "DIRECT_HEALTH_TIMEOUT")
            ≡ final fs
          → Since since i (attempt ∷ attempts) fs
      by_time true e none_later some_later h =
          seen-Since i attempt attempts fs e since _ _ none_later some_later
            (inspected lib container_id attempt (suc i)) refl h
      by_time false e none_later some_later h = cc

  -- If the loop ends with the data of a container, then from some turn on every turn was in time
  -- and saw the container well, the last of them saw those data, and its second clock is at least
  -- the stable time behind the first clock of that turn.
  pub watch-AtLastWell :
      (attempts : List Attempt) (fs : Fields)
      → watch lib container_id deadline stable attempts ≡ final fs
      → AtLastWell 0 attempts fs
  unfolding watch
  watch-AtLastWell attempts fs h = watch_from-Since 0 none attempts fs h

  -- the turns are in time, and each sees the container well
  abbrev pub AllWell : ℕ → List Attempt → Type 0
  AllWell i [] = Unit
  AllWell i (attempt ∷ attempts) = ((fs : Fields) × SawWell i attempt fs) × AllWell (suc i) attempts

  -- some turn ends late enough
  abbrev pub some_late : ℕ → List Attempt → Bool
  some_late since attempts = any (λ a. leb (since + stable) a.checked) attempts

  module _ (i : ℕ) (attempt : Attempt) (attempts : List Attempt) (fs : Fields) where
    well_step :
        (since : Option ℕ)
        → SawWell i attempt fs
        → run_from i since (attempt ∷ attempts) ≡ (
            if leb (since_or since attempt.marked + stable) attempt.checked
            then final fs
            else run_from (suc i) (some (since_or since attempt.marked)) attempts)
    unfolding watch_from
    well_step since s = rw s.in_time (rw s.seen_fields (rw s.was_well refl))

  abbrev Finals : Watched → Type 0
  Finals w = (fs : Fields) × (w ≡ final fs)

  late-Finals :
      (t rest_late : Bool) (fs : Fields) (rest : Watched)
      → (t || rest_late) ≡ true
      → (rest_late ≡ true → Finals rest)
      → Finals (if t then final fs else rest)
  late-Finals true rest_late fs rest h f = (fs, refl)
  late-Finals false rest_late fs rest h f = f h

  well-Finals :
      (i since : ℕ) (attempts : List Attempt)
      → AllWell i attempts
      → some_late (suc since) attempts ≡ true
      → Finals (run_from i (some (suc since)) attempts)
  well-Finals i since [] w h = cc
  well-Finals i since (attempt ∷ attempts) ((fs, s), w) h =
      rw (well_step i attempt attempts fs (some (suc since)) s)
        (late-Finals _ _ fs _ h (well-Finals (suc i) since attempts w))

  -- If every turn is in time and sees the container well, the first clock of the first turn is not
  -- zero and some turn ends at least the stable time behind it, then the loop ends with the data
  -- of a container.
  pub watch-Finals :
      (attempt : Attempt) (attempts : List Attempt) (since : ℕ)
      → AllWell 0 (attempt ∷ attempts)
      → attempt.marked ≡ suc since
      → some_late (suc since) (attempt ∷ attempts) ≡ true
      → (fs : Fields) × (watch lib container_id deadline stable (attempt ∷ attempts) ≡ final fs)
  unfolding watch
  watch-Finals attempt attempts since ((fs, s), w) e h =
      rw (well_step 0 attempt attempts fs none s)
        (rw e (late-Finals _ _ fs _ h (well-Finals 1 since attempts w)))
