-- ===== src/Shell/Tests.antt =====
-- Lines of input.
use revinix_os.Base.{ℕ, ◌≡◌, refl, some, [], ◌∷◌, arith, update}
use revinix_os.Fs.Block.{Bytes}
use revinix_os.Shell.{
  Command, text, split_arg, parse_line, str_eq, word_end, skip_spaces, find_command,
}
use revinix_os.Shell.Split.{Split, split_arg-Split}

-- "cat  a"
abbrev cat_line : Bytes
cat_line = text (99 ∷ 97 ∷ 116 ∷ 32 ∷ 32 ∷ 97 ∷ [])

split_arg-Split_example :
    (result : ℕ × Bytes) × (split_arg 128 cat_line ≡ some result) × Split cat_line result
split_arg-Split_example = split_arg-Split 128 cat_line 6 (omega arith) refl

parse_cat : parse_line 16 cat_line ≡ some (Command.cat, 5, update cat_line 3 0)
unfolding parse_line split_arg word_end skip_spaces find_command str_eq update
parse_cat = refl
