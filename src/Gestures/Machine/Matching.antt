-- ===== src/Gestures/Machine/Matching.antt =====
-- Finger tracking: which finger a touch claims, and how a finger is followed over a frame.
use nyx_modules.Base.{
  ℕ, zero, suc, ◌+◌, ◌≤◌, ◌<◌, ◌≡◌, refl, ap, ◌∙◌, ◌⊎◌, inl, inr, List, [], ◌∷◌, arith, ltb,
  if◌then◌else◌, Bool-cases, Option, none, some, All, get_elem?,
}
use nyx_modules.Gestures.Finger.{Finger, int_max}
use nyx_modules.Gestures.Machine.{Touch, distance, closest_from}

-- A finger that a touch may not claim, or that is no closer than `d`.
abbrev pub NotCloser : Touch → ℕ → Finger → Type 0
NotCloser p d g = (g.min_dist < distance g p) ⊎ (d ≤ distance g p)

-- The search has ended at `r`: with the start values, or at the finger at position `k`.
data Found (p : Touch) (fs : List Finger) (i d : ℕ) (o : Option ℕ) (r : ℕ × Option ℕ) : Type 0 where
  nothing : r.0 ≡ d → r.1 ≡ o → Found p fs i d o r
  at :
      (k : ℕ) (f : Finger)
      → get_elem? fs k ≡ some f
      → r.1 ≡ some (i + k)
      → r.0 ≡ distance f p
      → r.0 < d
      → r.0 ≤ f.min_dist
      → Found p fs i d o r

-- `minDist` and `minId` after a finger has been looked at.
abbrev next_dist : Touch → Finger → ℕ → ℕ
next_dist p f d =
    if ltb f.min_dist (distance f p) then d else if ltb (distance f p) d then distance f p else d

abbrev next_id : Touch → Finger → ℕ → ℕ → Option ℕ → Option ℕ
next_id p f i d o =
    if ltb f.min_dist (distance f p) then o else if ltb (distance f p) d then some i else o

closest_from-le :
    (p : Touch) (fs : List Finger) (i d : ℕ) (o : Option ℕ) → (closest_from p fs i d o).0 ≤ d
unfolding closest_from
closest_from-le p [] i d o = omega arith
closest_from-le p (f ∷ fs) i d o =
    let ih = closest_from-le p fs (i + 1) (next_dist p f d) (next_id p f i d o) in
    let step : next_dist p f d ≤ d = ground arith in omega (arith, ih, step)

pub closest_from-NotCloser :
    (p : Touch) (fs : List Finger) (i d : ℕ) (o : Option ℕ)
    → All (NotCloser p (closest_from p fs i d o).0) fs
unfolding closest_from
closest_from-NotCloser p [] i d o = tt
closest_from-NotCloser p (f ∷ fs) i d o =
    let ih = closest_from-le p fs (i + 1) (next_dist p f d) (next_id p f i d o) in
    let step : NotCloser p (next_dist p f d) f = ground arith in
    (
      elim step [ inl skip ↦ inl skip | inr far ↦ inr (omega (arith, ih, far)) ],
      closest_from-NotCloser p fs (i + 1) (next_dist p f d) (next_id p f i d o),
    )

next-Found :
    (p : Touch) (f : Finger) (fs : List Finger) (i d : ℕ) (o : Option ℕ) (r : ℕ × Option ℕ)
    → Found p fs (i + 1) (next_dist p f d) (next_id p f i d o) r
    → Found p (f ∷ fs) i d o r
next-Found p f fs i d o r (at k g e position dist close fits) =
    let step : next_dist p f d ≤ d = ground arith in
    at (suc k) g e (position ∙ ap some (omega arith)) dist (omega (arith, step, close)) fits
next-Found p f fs i d o r (nothing ed eo) = elim (Bool-cases (ltb f.min_dist (distance f p))) [
  | inl skip ↦ nothing (ground arith) (ground arith)
  | inr may ↦ elim (Bool-cases (ltb (distance f p) d)) [
    | inl closer ↦ at zero f refl (eo ∙ ground arith) (ground arith) (ground arith) (ground arith)
    | inr far ↦ nothing (ground arith) (ground arith)
  ]
]

closest_from-Found :
    (p : Touch) (fs : List Finger) (i d : ℕ) (o : Option ℕ)
    → Found p fs i d o (closest_from p fs i d o)
unfolding closest_from
closest_from-Found p [] i d o = nothing refl refl
closest_from-Found p (f ∷ fs) i d o =
    next-Found p f fs i d o _
      (closest_from-Found p fs (i + 1) (next_dist p f d) (next_id p f i d o))

-- The finger that a touch claims is at a distance that is below INT_MAX and no greater than that of
-- the touch which has the finger so far, and any other finger has a better touch or is no closer.
-- Where no finger is claimed, each has a better touch or is at INT_MAX or more.
pub closest_lem :
    (p : Touch) (fs : List Finger)
    → All (NotCloser p (closest_from p fs 0 int_max none).0) fs
      × ((((closest_from p fs 0 int_max none).0 ≡ int_max)
            × ((closest_from p fs 0 int_max none).1 ≡ none))
          ⊎ ((k : ℕ) × (f : Finger) × (get_elem? fs k ≡ some f)
              × ((closest_from p fs 0 int_max none).1 ≡ some k)
              × ((closest_from p fs 0 int_max none).0 ≡ distance f p)
              × (distance f p < int_max)
              × (distance f p ≤ f.min_dist)))
closest_lem p fs =
    (closest_from-NotCloser p fs 0 int_max none, read (closest_from-Found p fs 0 int_max none))
  where
    read :
        {r : ℕ × Option ℕ}
        → Found p fs 0 int_max none r
        → ((r.0 ≡ int_max) × (r.1 ≡ none))
          ⊎ ((k : ℕ) × (f : Finger) × (get_elem? fs k ≡ some f)
              × (r.1 ≡ some k)
              × (r.0 ≡ distance f p)
              × (distance f p < int_max)
              × (distance f p ≤ f.min_dist))
    read (nothing ed eo) = inl (ed, eo)
    read (at k f e position dist close fits) = inr (
      k,
      f,
      e,
      position ∙ ap some (omega arith),
      dist,
      omega (arith, close, dist),
      omega (arith, fits, dist),
    )
