-- ===== src/AvailableCpus/Counts.antt =====
-- The count of a mask, against the sum of its binary digits.
use Prim.Native.Nat.{bit_and}
use victoriametrics_importer.Prelude.{
  ℕ, zero, suc, ◌+◌, ◌-◌, ◌*◌, ◌/◌, ◌%◌, ◌^◌, ◌≤◌, ◌<◌, min, ◌≡◌, ◌⊎◌, inl, inr, refl, sym, ap, ◌∙◌,
  none, some, List, [], ◌∷◌, arith,
}
use victoriametrics_importer.AvailableCpus.{count_mask, count_masks, get_available_cpu_count}
use victoriametrics_importer.AvailableCpus.Bits.{clear_odd, clear_double}

-- The sum of the first binary digits.
pub ones : (width : ℕ) → ℕ → ℕ
ones zero n = 0
ones (suc w) n = n % 2 + ones w (n / 2)

abbrev pub total : List ℕ → ℕ
total [] = 0
total (m ∷ ms) = ones 64 m + total ms

abbrev pub AllWords : List ℕ → Type 0
AllWords [] = Unit {0}
AllWords (m ∷ ms) = m < 2 ^ 64 × AllWords ms

ones-bound : (w n : ℕ) → ones w n ≤ w
unfolding ones
ones-bound zero n = omega arith
ones-bound (suc w) n = omega (arith, ones-bound w (n / 2))

count_mask-zero : (f c : ℕ) → count_mask f 0 c ≡ c
unfolding count_mask
count_mask-zero zero c = refl
count_mask-zero (suc f) c = refl

count_mask-next :
    (f n c : ℕ) → 0 < n → count_mask (suc f) n c ≡ count_mask f (bit_and n (n - 1)) (c + 1)
unfolding count_mask
count_mask-next f n c h = ground (arith, h)

count_mask-double : (f m c : ℕ) → count_mask f (2 * m) c ≡ count_mask f m c
unfolding count_mask
count_mask-double zero m c = refl
count_mask-double (suc f) zero c = refl
count_mask-double (suc f) (suc m) c =
    count_mask-next f (2 * suc m) c (omega arith)
    ∙ ap (λ x. count_mask f x (c + 1)) (clear_double (suc m) (omega arith))
    ∙ count_mask-double f (bit_and (suc m) (suc m - 1)) (c + 1)
    ∙ sym (count_mask-next f (suc m) c (omega arith))

parity : (n : ℕ) → (n ≡ 2 * (n / 2)) ⊎ (n % 2 ≡ 1)
parity n = omega arith

count_mask-odd : (f n c : ℕ) → n % 2 ≡ 1 → count_mask (suc f) n c ≡ count_mask f (n / 2) (c + 1)
count_mask-odd f n c h =
    count_mask-next f n c (omega (arith, h))
    ∙ ap (λ x. count_mask f x (c + 1)) (clear_odd n h)
    ∙ count_mask-double f (n / 2) (c + 1)

count_mask-odd_half :
    (w f n c : ℕ)
    → ones (suc w) n ≤ f
    → n % 2 ≡ 1
    → ((g : ℕ) → ones w (n / 2) ≤ g → count_mask g (n / 2) (c + 1) ≡ c + 1 + ones w (n / 2))
    → count_mask f n c ≡ c + ones (suc w) n
unfolding ones
count_mask-odd_half w zero n c k odd half = absurd (omega (arith, k, odd))
count_mask-odd_half w (suc g) n c k odd half =
    count_mask-odd g n c odd ∙ half g (omega (arith, k, odd)) ∙ omega (arith, odd)

-- The rounds of a mask are its ones.
count_mask-ones : (w f n c : ℕ) → n < 2 ^ w → ones w n ≤ f → count_mask f n c ≡ c + ones w n
unfolding ones
count_mask-ones zero f n c h k =
    let none_left : n ≡ 0 = omega (arith, h) in
    ap (λ x. count_mask f x c) none_left ∙ count_mask-zero f c ∙ omega arith
count_mask-ones (suc w) f n c h k = elim (parity n) [
  | inl even ↦
      ap (λ x. count_mask f x c) even
      ∙ count_mask-double f (n / 2) c
      ∙ count_mask-ones w f (n / 2) c (omega (arith, h)) (omega (arith, k))
      ∙ omega (arith, even)
  | inr odd ↦
      count_mask-odd_half w f n c k odd
        (λ g l. count_mask-ones w g (n / 2) (c + 1) (omega (arith, h)) l)
]

count_masks-total : (ms : List ℕ) (c : ℕ) → AllWords ms → count_masks ms c ≡ c + total ms
unfolding count_masks
count_masks-total [] c h = omega arith
count_masks-total (m ∷ ms) c h =
    ap (count_masks ms) (count_mask-ones 64 64 m c h.0 (ones-bound 64 m))
    ∙ count_masks-total ms (c + ones 64 m) h.1
    ∙ omega arith

-- With the affinity known, the count is the number of bits set in its masks, but no more than the
-- runtime knows; without, it is what the runtime knows.
pub get_available_cpu_count-ones :
    (cpu_set : List ℕ) (num_cpu : ℕ)
    → AllWords cpu_set
    → (get_available_cpu_count (some cpu_set) num_cpu ≡ min (total cpu_set) num_cpu)
      × (get_available_cpu_count none num_cpu ≡ num_cpu)
unfolding get_available_cpu_count
get_available_cpu_count-ones cpu_set num_cpu h =
    (ground (arith, count_masks-total cpu_set 0 h), refl)
