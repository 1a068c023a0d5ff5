-- ===== src/Console/Format.antt =====
-- kernel/kprintf.c: the format loop of kprintf.
-- The arguments come as a list; `none` stands for an argument that is missing or of another kind, for a
-- `%` at the end of the format, behind which the code reads on, and for too little fuel.
use revinix_os.Base.{
  ℕ, ◌%◌, Bool, true, ◌||◌, ◌!=◌, Option, none, some, List, [], ◌∷◌, ◌==◌, if◌then◌else◌,
}
use revinix_os.Console.Log.{Log, emit_char, emit_str, print_uint, print_int}

-- the arguments of `%s`, `%d`, `%x`, `%c` and `%p`; an int as a 64-bit two's complement number
pub data Arg : Type 0 where
  string : List ℕ → Arg
  int : ℕ → Arg
  unsigned : ℕ → Arg
  char : ℕ → Arg
  pointer : ℕ → Arg

-- the conversion `c` on the argument that is next
unfoldable pub convert : ℕ → Log → ℕ → List Arg → Option (Log × List Arg)
convert fuel l c [] = none
convert fuel l c (Arg.string s ∷ args) = if c == 115 then some (emit_str l s, args) else none
convert fuel l c (Arg.int v ∷ args) =
    let printed = print_int fuel l v in
    if c == 100 then elim printed [ none ↦ none | some l1 ↦ some (l1, args) ] else none
convert fuel l c (Arg.unsigned v ∷ args) =
    let printed = print_uint fuel l v true in
    if c == 120 then elim printed [ none ↦ none | some l1 ↦ some (l1, args) ] else none
convert fuel l c (Arg.char v ∷ args) = if c == 99 then some (emit_char l (v % 256), args) else none
convert fuel l c (Arg.pointer v ∷ args) =
    let printed = print_uint fuel (emit_str l (48 ∷ 120 ∷ [])) v true in
    if c == 112 then elim printed [ none ↦ none | some l1 ↦ some (l1, args) ] else none

-- the conversions that take an argument
abbrev pub takes_argument : ℕ → Bool
takes_argument c = (c == 115) || (c == 100) || (c == 120) || (c == 99) || (c == 112)

-- one round for `%` and the character behind it
unfoldable pub directive : ℕ → Log → ℕ → List Arg → Option (Log × List Arg)
directive fuel l c args =
    let converted = convert fuel l c args in
    if takes_argument c
    then converted
    else if c == 37
    then some (emit_char l 37, args)
    else some (emit_char (emit_char l 37) c, args)

unfoldable pub kprintf : ℕ → Log → List ℕ → List Arg → Option Log
kprintf fuel l [] args = some l
kprintf fuel l (c ∷ []) args = if c == 37 then none else some (emit_char l c)
kprintf fuel l (c ∷ d ∷ fmt) args =
    let plain = kprintf fuel (emit_char l c) (d ∷ fmt) args in
    if c != 37
    then plain
    else elim (directive fuel l d args) [ none ↦ none | some (l1, left) ↦ kprintf fuel l1 fmt left ]
