-- ===== src/FlagUsage/Tests.antt =====
-- A short message.
use victoriametrics_importer.Prelude.{◌≡◌, refl, [], ◌∷◌, arith}
use victoriametrics_importer.FlagUsage.{
  Bytes, is_space, push_word, words_at, fields, wrap_from, wrap, format_flag_usage_width,
}
use victoriametrics_importer.FlagUsage.Wrap.{AllShort, IsWithin, format_flag_usage_width-IsWithin}

-- `a bc d`, with a line break and spaces.
abbrev message : Bytes
message = 32 ∷ 97 ∷ 10 ∷ 9 ∷ 98 ∷ 99 ∷ 32 ∷ 100 ∷ []

wrapped : format_flag_usage_width message 4 ≡ 97 ∷ 32 ∷ 98 ∷ 99 ∷ 10 ∷ 100 ∷ []
unfolding format_flag_usage_width wrap wrap_from fields words_at push_word is_space
wrapped = refl

message_short : AllShort 4 (fields message)
unfolding fields words_at push_word is_space
message_short = (omega arith, (omega arith, (omega arith, tt)))

format_flag_usage_width-IsWithin_example : IsWithin 4 0 (format_flag_usage_width message 4)
format_flag_usage_width-IsWithin_example = format_flag_usage_width-IsWithin message 4 message_short
