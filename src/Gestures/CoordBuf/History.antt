-- ===== src/Gestures/CoordBuf/History.antt =====
-- What a coordinate buffer means: the bounded history of a finger's coordinates, oldest first.
use native.Mathlib.Numerals.{add-one}
use native.Mathlib.Nat.{mod-mod, mod-add-mod, mod-eq_of_lt, mod-eq-sub-mod, add-zero}
use nyx_modules.Base.{
  ℕ, zero, suc, ◌+◌, ◌-◌, ◌%◌, ◌≤◌, ◌<◌, ◌≡◌, refl, sym, ap, ◌∙◌, ℤ, List, [], ◌∷◌, ◌++◌, arith,
  ◌==◌, leb, Bool-cases, inl, inr, if◌then◌else◌, ltb, get_or, set, length, drop, length-set,
  get_or-set_self, get_or-set_ne,
}
use nyx_modules.Gestures.Types.{TimeStamp, GeneralSettings}
use nyx_modules.Gestures.CoordBuf.{
  Coord, CoordBuf, zero_coord, new_coord, head_for_new, update_coord_buffer, get_last_coords,
}

-- The representation invariant.
pub record IsValid (b : CoordBuf) : Type 0 where
  pub nonempty : 0 < b.size
  pub memory : length b.coords ≡ b.size
  pub head_in : b.head < b.size
  pub fits : b.num_items ≤ b.size
  pub tail_at : b.tail ≡ (b.head + b.num_items) % b.size

module _ (cs : List Coord) (size : ℕ) where
  -- the `n` items from index `h` on, round the array
  abbrev pub items : ℕ → ℕ → List Coord
  items h zero = []
  items h (suc n) = get_or cs (h % size) zero_coord ∷ items (suc h) n

  pub length-items : (h n : ℕ) → length (items h n) ≡ n
  length-items h zero = refl
  length-items h (suc n) = ap suc (length-items (suc h) n)

  items-snoc :
      (h n : ℕ) → items h (suc n) ≡ items h n ++ (get_or cs ((h + n) % size) zero_coord ∷ [])
  items-snoc h zero = rw add-zero
  items-snoc h (suc n) =
      ap (λ l. get_or cs (h % size) zero_coord ∷ l)
        (items-snoc (suc h) n
          ∙ ap (λ k. items (suc h) n ++ (get_or cs (k % size) zero_coord ∷ [])) (omega arith))

  -- Only the index modulo the size counts.
  items_cong : (h k n : ℕ) → 0 < size → h % size ≡ k % size → items h n ≡ items k n
  items_cong h k zero p e = refl
  items_cong h k (suc n) p e =
      rw (e, items_cong (suc h) (suc k) n p (shift h ∙ ap (λ m. (m + 1) % size) e ∙ sym (shift k)))
    where
      shift : (m : ℕ) → suc m % size ≡ (m % size + 1) % size
      shift m = rw mod-add-mod (ap (λ i. i % size) (omega arith))

abbrev pub history : CoordBuf → List Coord
history b = items b.coords b.size b.head b.num_items

-- A history of at most `size` items: a full one loses its oldest item.
unfoldable pub remember : ℕ → List Coord → Coord → List Coord
remember size l c = if length l == size then drop 1 l ++ (c ∷ []) else l ++ (c ∷ [])

-- An index less than one turn ahead.
mod_turn :
    (size h k : ℕ)
    → h < size
    → k ≤ size
    → (h + k) % size ≡ (if leb size (h + k) then h + k - size else h + k)
mod_turn size h k hh hk = elim (Bool-cases (leb size (h + k))) [
  | inl e ↦ rw e (
      omega (
        arith,
        mod-eq-sub-mod {n = h + k} {m = size} (ground arith),
        mod-eq_of_lt {n = h + k - size} {m = size} (ground arith),
      ))
  | inr e ↦ rw e (mod-eq_of_lt (ground arith))
]

-- Fewer than `size` steps round the array do not come back to the start.
mod-ne : (size h k n : ℕ) → h < size → k < n → n < size → ¬ ((h + n) % size ≡ (h + k) % size)
mod-ne size h k n hh hk hn e =
    ground (arith, mod_turn size h k hh (omega arith), mod_turn size h n hh (omega arith))

-- Items that a write does not touch.
items-set :
    (cs : List Coord) (size i : ℕ) (c : Coord) (h n : ℕ)
    → ((k : ℕ) → k < n → ¬ (i ≡ (h + k) % size))
    → items (set cs i c) size h n ≡ items cs size h n
items-set cs size i c h zero ne = refl
items-set cs size i c h (suc n) ne =
    rw (get_or-set_ne cs i (h % size) c zero_coord (λ e. ne 0 (omega arith) (e ∙ rw add-zero))) (
      ap (λ l. get_or cs (h % size) zero_coord ∷ l)
        (items-set cs size i c (suc h) n
          (λ k hk e. ne (suc k) (omega arith) (e ∙ ap (λ m. m % size) (omega arith)))))

-- The slot that a full turn writes is the last one.
last_index :
    {b : CoordBuf}
    → IsValid b
    → (head_for_new b + (if ltb b.num_items b.size then b.num_items + 1 else b.num_items) - 1)
        % b.size
      ≡ b.tail
unfolding head_for_new
last_index {b} v = ground (
  arith,
  mod_turn b.size b.head b.num_items v.head_in v.fits,
  mod_turn b.size b.head 1 v.head_in (omega arith),
  mod_turn b.size ((b.head + 1) % b.size) (b.size - 1),
)

-- A write just behind the items extends them.
items-set_next :
    (cs : List Coord) (size h n i : ℕ) (c : Coord)
    → h < size
    → n < size
    → length cs ≡ size
    → i ≡ (h + n) % size
    → items (set cs i c) size h (suc n) ≡ items cs size h n ++ (c ∷ [])
items-set_next cs size h n i c hh hn hl e =
    items-snoc (set cs i c) size h n
    ∙ rw (← e, get_or-set_self cs i c zero_coord (rw e (omega arith)))
        (ap (λ l. l ++ (c ∷ []))
          (items-set cs size i c h n (λ k hk q. mod-ne size h k n hh hk hn (sym e ∙ q))))

-- The same where the items go all the way round: the oldest one is lost.
items-set_full :
    (cs : List Coord) (size h i : ℕ) (c : Coord)
    → h < size
    → length cs ≡ size
    → i ≡ h
    → items (set cs i c) size ((h + 1) % size) size ≡ drop 1 (items cs size h size) ++ (c ∷ [])
items-set_full cs zero h i c hh hl e = absurd (omega arith)
items-set_full cs (suc m) h i c hh hl e =
    items-set_next cs (suc m) ((h + 1) % suc m) m i c (omega arith) (omega arith) hl (
      ground (
        arith,
        mod_turn (suc m) h 1 hh (omega arith),
        mod_turn (suc m) ((h + 1) % suc m) m (omega arith) (omega arith),
      ))
    ∙ ap (λ l. l ++ (c ∷ []))
        (items_cong cs (suc m) ((h + 1) % suc m) (suc h) m (omega arith)
          (rw mod-mod (ap (λ k. k % suc m) (omega arith))))

module _ (s : GeneralSettings) (x y : ℤ) (t : TimeStamp) where
  -- An update of a valid buffer writes inside the array, and keeps the representation valid.
  pub update-IsValid :
      {b : CoordBuf}
      → IsValid b
      → (b.tail < length b.coords) × IsValid (update_coord_buffer s b x y t)
  unfolding update_coord_buffer head_for_new
  update-IsValid {b} v = ground (
    arith,
    length-set b.coords b.tail (new_coord s b x y t),
    mod_turn b.size b.head b.num_items v.head_in v.fits,
    mod_turn b.size b.head 1 v.head_in (omega arith),
    mod_turn b.size b.tail 1,
    mod_turn b.size (head_for_new b)
        (if ltb b.num_items b.size then b.num_items + 1 else b.num_items),
  )

  -- The history after an update of a valid buffer is the old one with the new coordinate at its
  -- end, without its oldest item if the buffer was full.
  pub history-update :
      {b : CoordBuf}
      → IsValid b
      → history (update_coord_buffer s b x y t) ≡ remember b.size (history b) (new_coord s b x y t)
  unfolding update_coord_buffer remember head_for_new
  history-update {b} v = ground (
    arith,
    add-one b.num_items,
    length-items b.coords b.size b.head b.num_items,
    mod_turn b.size b.head b.num_items v.head_in v.fits,
    items-set_next b.coords b.size b.head b.num_items b.tail (new_coord s b x y t) v.head_in,
    items-set_full b.coords b.size b.head b.tail (new_coord s b x y t) v.head_in v.memory,
  )

  -- What is read back after an update of a valid buffer is the coordinate that it stored.
  pub get_last-update :
      {b : CoordBuf}
      → IsValid b
      → get_last_coords (update_coord_buffer s b x y t) ≡ new_coord s b x y t
  unfolding update_coord_buffer get_last_coords
  get_last-update {b} v =
      rw (last_index v) (get_or-set_self b.coords b.tail _ zero_coord (update-IsValid v).0)
