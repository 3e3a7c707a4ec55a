-- ===== src/FlagUsage/Wrap.antt =====
-- The words and the lines of a wrapped text.
use mathlib.Core.List.{append-nil}
use victoriametrics_importer.Prelude.{
  ℕ, suc, ◌+◌, ◌≤◌, ◌<◌, ◌≡◌, refl, ap, subst, ◌∙◌, true, false, List, [], ◌∷◌, ◌++◌, ltb, ◌==◌,
  if◌then◌else◌, length, arith, Bool-cases, inl, inr,
}
use victoriametrics_importer.FlagUsage.{
  Bytes, newline, blank, is_space, push_word, words_at, fields, wrap_from, wrap,
  format_flag_usage_width,
}

abbrev AllSolid : Bytes → Type 0
AllSolid [] = Unit
AllSolid (c ∷ cs) = (is_space c ≡ false) × AllSolid cs

-- A word is not empty and has no white space.
abbrev AllWords : List Bytes → Type 0
AllWords [] = Unit
AllWords (w ∷ ws) = ((0 < length w) × AllSolid w) × AllWords ws

push_word-AllWords :
    (w : Bytes) (ws : List Bytes) → AllSolid w → AllWords ws → AllWords (push_word (w, ws))
unfolding push_word
push_word-AllWords [] ws s a = a
push_word-AllWords (c ∷ cs) ws s a = ((omega arith, s), a)

words_at-AllWords : (s : Bytes) → AllSolid (words_at s).0 × AllWords (words_at s).1
unfolding words_at
words_at-AllWords [] = (tt, tt)
words_at-AllWords (c ∷ cs) =
    let h = words_at-AllWords cs in
    elim (Bool-cases (is_space c)) [
      | inl e ↦ rw e (tt, push_word-AllWords (words_at cs).0 (words_at cs).1 h.0 h.1)
      | inr e ↦ rw e ((e, h.0), h.1)
    ]

fields-AllWords : (s : Bytes) → AllWords (fields s)
unfolding fields
fields-AllWords s =
    let h = words_at-AllWords s in push_word-AllWords (words_at s).0 (words_at s).1 h.0 h.1

words_at-append :
    (w rest : Bytes)
    → AllSolid w
    → words_at (w ++ rest) ≡ (w ++ (words_at rest).0, (words_at rest).1)
unfolding words_at
words_at-append [] rest s = refl
words_at-append (c ∷ cs) rest (e, s) = rw e (ap (λ r. (c ∷ r.0, r.1)) (words_at-append cs rest s))

push_word-word : (w : Bytes) (ws : List Bytes) → 0 < length w → push_word (w, ws) ≡ w ∷ ws
unfolding push_word
push_word-word [] ws h = absurd (omega (arith, h))
push_word-word (c ∷ cs) ws h = refl

spaced :
    (c : ℕ) (w rest : Bytes) (ws : List Bytes)
    → is_space c ≡ true
    → 0 < length w
    → AllSolid w
    → words_at rest ≡ ([], ws)
    → words_at (c ∷ w ++ rest) ≡ ([], w ∷ ws)
unfolding words_at
spaced c w rest ws e h s k =
    let q =
      words_at-append w rest s ∙ ap (λ r. (w ++ r.0, r.1)) k ∙ ap (λ x. (x, ws)) (append-nil w) in
    rw e (ap (λ r. ([], push_word r)) q ∙ ap (λ r. ([], r)) (push_word-word w ws h))

wrap_from-words :
    (width n : ℕ) (ws : List Bytes) → AllWords ws → words_at (wrap_from width n ws) ≡ ([], ws)
unfolding wrap_from words_at is_space
wrap_from-words width n [] a = refl
wrap_from-words width n (w ∷ ws) ((h, s), a) = elim (Bool-cases (ltb width (n + length w + 1))) [
  | inl e ↦ rw e (spaced newline w _ ws refl h s (wrap_from-words width (length w) ws a))
  | inr e ↦ rw e (spaced blank w _ ws refl h s (wrap_from-words width (n + 1 + length w) ws a))
]

wrap-words : (width : ℕ) (ws : List Bytes) → AllWords ws → fields (wrap width ws) ≡ ws
unfolding wrap fields words_at push_word
wrap-words width [] a = refl
wrap-words width (w ∷ ws) ((h, s), a) =
    let q =
      words_at-append w (wrap_from width (length w) ws) s
      ∙ ap (λ r. (w ++ r.0, r.1)) (wrap_from-words width (length w) ws a)
      ∙ ap (λ x. (x, ws)) (append-nil w) in
    ap push_word q ∙ push_word-word w ws h

-- No line from here on is longer than the width, where n bytes of the line come before.
abbrev pub IsWithin : (width n : ℕ) → Bytes → Type 0
IsWithin width n [] = n ≤ width
IsWithin width n (c ∷ cs) =
    if c == newline then (n ≤ width) × IsWithin width 0 cs else IsWithin width (suc n) cs

abbrev pub AllShort : (width : ℕ) → List Bytes → Type 0
AllShort width [] = Unit
AllShort width (w ∷ ws) = (length w ≤ width) × AllShort width ws

solid-newline : (c : ℕ) → is_space c ≡ false → (c == newline) ≡ false
unfolding is_space
solid-newline c h = ground (arith, h)

IsWithin-append :
    (width n k : ℕ) (w rest : Bytes)
    → AllSolid w
    → k ≡ n + length w
    → IsWithin width k rest
    → IsWithin width n (w ++ rest)
IsWithin-append width n k [] rest s e h = subst (λ m. IsWithin width m rest) (omega (arith, e)) h
IsWithin-append width n k (c ∷ cs) rest (f, s) e h =
    rw (solid-newline c f) (IsWithin-append width (suc n) k cs rest s (omega (arith, e)) h)

wrap_from-IsWithin :
    (width n : ℕ) (ws : List Bytes)
    → AllWords ws
    → AllShort width ws
    → n ≤ width
    → IsWithin width n (wrap_from width n ws)
unfolding wrap_from
wrap_from-IsWithin width n [] a b h = h
wrap_from-IsWithin width n (w ∷ ws) ((_, s), a) (b, bs) h =
    elim (Bool-cases (ltb width (n + length w + 1))) [
      | inl e ↦ rw e (
        h,
        IsWithin-append width 0 (length w) w _ s (omega arith)
            (wrap_from-IsWithin width (length w) ws a bs b),
      )
      | inr e ↦ rw e (
          IsWithin-append width (suc n) (n + 1 + length w) w _ s (omega arith)
            (wrap_from-IsWithin width (n + 1 + length w) ws a bs (ground (arith, e))))
    ]

wrap-IsWithin :
    (width : ℕ) (ws : List Bytes)
    → AllWords ws
    → AllShort width ws
    → IsWithin width 0 (wrap width ws)
unfolding wrap
wrap-IsWithin width [] a b = omega arith
wrap-IsWithin width (w ∷ ws) ((_, s), a) (b, bs) =
    IsWithin-append width 0 (length w) w _ s (omega arith)
      (wrap_from-IsWithin width (length w) ws a bs b)

-- A usage message that is wrapped around any width has the words of the original, in their order.
pub fields-format_flag_usage_width :
    (usage : Bytes) (width : ℕ) → fields (format_flag_usage_width usage width) ≡ fields usage
unfolding format_flag_usage_width
fields-format_flag_usage_width usage width = wrap-words width (fields usage) (fields-AllWords usage)

-- If no word of a usage message is longer than the width, no line of the wrapped message is.
pub format_flag_usage_width-IsWithin :
    (usage : Bytes) (width : ℕ)
    → AllShort width (fields usage)
    → IsWithin width 0 (format_flag_usage_width usage width)
unfolding format_flag_usage_width
format_flag_usage_width-IsWithin usage width b =
    wrap-IsWithin width (fields usage) (fields-AllWords usage) b
