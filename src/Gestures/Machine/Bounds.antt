-- ===== src/Gestures/Machine/Bounds.antt =====
-- The indices that the matching of touches leaves in the fingers.
use nyx_modules.Base.{
  ℕ, zero, suc, ◌+◌, ◌≤◌, ◌<◌, ◌≡◌, refl, sym, ap, ◌∙◌, ◌⊎◌, inl, inr, List, [], ◌∷◌, arith, Option,
  none, some, length, All, All-imp, get_elem?, get_or, drop,
}
use native.Mathlib.Numerals.{add-one}
use mathlib.Core.Option.{some-injective}
use nyx_modules.Gestures.Finger.{Finger, int_max}
use nyx_modules.Gestures.Machine.{
  Machine, Touch, zero_touch, distance, closest_from, claim, apply_match, match_touch,
  match_touches,
}
use nyx_modules.Gestures.Machine.Invariant.{IsTracked, Inv}
use nyx_modules.Gestures.Machine.Matching.{closest_lem}

-- A finger has no touch, or one inside the arrays at exactly its distance.
abbrev pub IsMatched : List Touch → Finger → Type 0
IsMatched ps f =
    (f.min_dist ≡ int_max)
    ⊎ ((f.min_dist_id < length ps) × (f.min_dist ≡ distance f (get_or ps f.min_dist_id zero_touch)))

pub distance_cong : (f g : Finger) (p : Touch) → g.coords ≡ f.coords → distance f p ≡ distance g p
unfolding distance
distance_cong f g p e = rw e

pub claim-IsMatched :
    (ps : List Touch) (fs : List Finger) (k j : ℕ) (f : Finger)
    → j < length ps
    → get_elem? fs k ≡ some f
    → All (IsMatched ps) fs
    → All (IsMatched ps) (claim fs k j (distance f (get_or ps j zero_touch)))
unfolding claim
claim-IsMatched ps [] k j f h e all = all
claim-IsMatched ps (g ∷ fs) zero j f h e all = (
  inr (
    h,
    distance_cong f (record g { min_dist = distance f (get_or ps j zero_touch); min_dist_id = j })
        (get_or ps j zero_touch) (ap (λ (x : Finger). x.coords) (some-injective _ _ e)),
  ),
  all.1,
)
claim-IsMatched ps (g ∷ fs) (suc k) j f h e all = (all.0, claim-IsMatched ps fs k j f h e all.1)

pub match_touch-IsMatched :
    (ps : List Touch) (j : ℕ) (fs : List Finger)
    → j < length ps
    → All (IsMatched ps) fs
    → All (IsMatched ps) (match_touch j (get_or ps j zero_touch) fs)
unfolding match_touch apply_match
match_touch-IsMatched ps j fs h all =
    go (closest_from (get_or ps j zero_touch) fs 0 int_max none).0
      (closest_from (get_or ps j zero_touch) fs 0 int_max none).1
      (closest_lem (get_or ps j zero_touch) fs).1
  where
    go :
        (d : ℕ) (o : Option ℕ)
        → ((d ≡ int_max) × (o ≡ none))
          ⊎ ((k : ℕ) × (f : Finger) × (get_elem? fs k ≡ some f)
              × (o ≡ some k)
              × (d ≡ distance f (get_or ps j zero_touch))
              × (distance f (get_or ps j zero_touch) < int_max)
              × (distance f (get_or ps j zero_touch) ≤ f.min_dist))
        → All (IsMatched ps) (apply_match fs j (d, o))
    go d o (inl (ed, eo)) = rw (eo, apply_match) all
    go d o (inr (k, f, e, eo, ed, near, fits)) =
        rw (eo, ed, apply_match) (claim-IsMatched ps fs k j f h e all)

pub drop_next :
    (ps : List Touch) (j : ℕ) (q : Touch) (qs : List Touch)
    → drop j ps ≡ q ∷ qs
    → (j < length ps) × (get_or ps j zero_touch ≡ q) × (drop (j + 1) ps ≡ qs)
drop_next [] zero q qs e = cc
drop_next [] (suc j) q qs e = cc
drop_next (p ∷ ps) zero q qs e = (omega arith, ground arith, ground arith)
drop_next (p ∷ ps) (suc j) q qs e =
    let ih = drop_next ps j q qs e in
    (omega (arith, ih.0), ih.1, rw (add-one (suc j)) (ap (λ k. drop k ps) (sym (add-one j)) ∙ ih.2))

pub match_touches-IsMatched :
    (ps : List Touch) (j : ℕ) (rest : List Touch) (fs : List Finger)
    → drop j ps ≡ rest
    → All (IsMatched ps) fs
    → All (IsMatched ps) (match_touches j rest fs)
unfolding match_touches
match_touches-IsMatched ps j [] fs e all = all
match_touches-IsMatched ps j (q ∷ qs) fs e all =
    let (inside, here, next) = drop_next ps j q qs e in
    match_touches-IsMatched ps (j + 1) qs (match_touch j q fs) next
      (rw here at (match_touch-IsMatched ps j fs inside all))

-- In a machine with the invariant, once all touches have been matched, each finger either has no
-- touch, or has one inside the arrays and lies at the distance from it that was recorded.
pub matching_in_bounds :
    (m : Machine) (ps : List Touch) → Inv m → All (IsMatched ps) (match_touches 0 ps m.fingers)
matching_in_bounds m ps v =
    match_touches-IsMatched ps 0 ps m.fingers refl
      (All-imp IsTracked (IsMatched ps) m.fingers (λ f h. inl h.unmatched) v.tracked)
