-- ===== src/Context/Caveats.antt =====
-- The caveats of `compile_context`: the warnings that `hit_warnings` writes, by the class and the state.
use super_mem.Base.{ℕ, ◌≡◌, refl, Text, codes, List, [], ◌∷◌, ◌++◌, if◌then◌else◌}
use super_mem.Types.{Applicability, MemoryState, applicability_as_str, RecallHit}
use super_mem.Context.Assemble.{hit_warnings, needs_verification, is_contested}

module _ (show_id : ℕ → Text) where
  -- What is said of a memory that has to be verified, and of one that is contested.
  abbrev pub verify_caveat : ℕ → Text → Text
  verify_caveat id class =
      codes "Memory "
      ++ (show_id id
          ++ (codes " is "
              ++ (class ++ codes "; verify it against the current repository before acting.")))

  abbrev pub age_caveats : ℕ → Applicability → List Text
  age_caveats id Applicability.exact = []
  age_caveats id Applicability.compatible = []
  age_caveats id Applicability.stale = verify_caveat id (codes "stale") ∷ []
  age_caveats id Applicability.divergent = verify_caveat id (codes "divergent") ∷ []
  age_caveats id Applicability.unversioned = []
  age_caveats id Applicability.inapplicable = []

  abbrev pub state_caveats : ℕ → MemoryState → List Text
  state_caveats id MemoryState.active = []
  state_caveats id MemoryState.contested =
      (codes "Memory " ++ (show_id id ++ codes " is contested by other evidence.")) ∷ []
  state_caveats id MemoryState.superseded = []
  state_caveats id MemoryState.retracted = []

  abbrev pub caveats : RecallHit → List Text
  caveats h =
      age_caveats h.memory.memory_id h.applicability
      ++ state_caveats h.memory.memory_id h.memory.state

  -- The caveats of a list of hits, in order.
  abbrev pub all_caveats : List RecallHit → List Text
  all_caveats [] = []
  all_caveats (h ∷ hs) = caveats h ++ all_caveats hs

  -- The same, as the code writes them.
  abbrev pub all_warnings : List RecallHit → List Text
  all_warnings [] = []
  all_warnings (h ∷ hs) = hit_warnings show_id h ++ all_warnings hs

  hit_warnings-caveats : (h : RecallHit) → hit_warnings show_id h ≡ caveats h
  unfolding hit_warnings applicability_as_str
  hit_warnings-caveats h = both h.memory.memory_id h.applicability h.memory.state
    where
      both :
          (id : ℕ) (a : Applicability) (s : MemoryState)
          → (if needs_verification a then verify_caveat id (applicability_as_str a) ∷ [] else [])
              ++ (if is_contested s
                  then (codes "Memory " ++ (show_id id ++ codes " is contested by other evidence."))
                    ∷ []
                  else [])
            ≡ age_caveats id a ++ state_caveats id s
      both id a s = rw (age a, state s) refl
        where
          age :
              (a : Applicability)
              → (if needs_verification a
                  then verify_caveat id (applicability_as_str a) ∷ []
                  else [])
                ≡ age_caveats id a
          age Applicability.exact = refl
          age _ = refl

          state :
              (s : MemoryState)
              → (if is_contested s
                  then (codes "Memory " ++ (show_id id ++ codes " is contested by other evidence."))
                    ∷ []
                  else [])
                ≡ state_caveats id s
          state MemoryState.active = refl
          state _ = refl

  pub all_warnings-caveats : (hs : List RecallHit) → all_warnings hs ≡ all_caveats hs
  all_warnings-caveats [] = refl
  all_warnings-caveats (h ∷ hs) = rw (hit_warnings-caveats h, all_warnings-caveats hs) refl
