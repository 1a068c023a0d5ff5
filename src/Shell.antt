-- ===== src/Shell.antt =====
-- kernel/shell.c: the command line, and the text that the commands print.
-- A string is its bytes with a 0 behind them; a loop over one takes fuel, and `none` stands for a
-- string that is longer than the fuel.
pub mod Split
pub mod Files
mod Tests
use revinix_os.Base.{
  ℕ, zero, suc, ◌+◌, ◌-◌, ◌*◌, ◌/◌, ◌%◌, ◌^◌, Bool, true, false, not, ◌&&◌, ◌||◌, Option, none,
  some, List, [], ◌∷◌, ◌++◌, ltb, leb, ◌==◌, ◌!=◌, if◌then◌else◌, update, get_or, ◌>>=◌, add32,
}
use revinix_os.Fs.Block.{Bytes}
use revinix_os.Console.Log.{hex_digits}

-- a string literal
abbrev pub text : List ℕ → Bytes
text cs i = get_or cs i 0

-- `str_eq` from `i` on
unfoldable pub str_eq : ℕ → Bytes → Bytes → ℕ → Option Bool
str_eq zero a b i = none
str_eq (suc fuel) a b i =
    let rest = str_eq fuel a b (i + 1) in
    if (a i != 0) && (b i != 0)
    then (if a i != b i then some false else rest)
    else some (a i == b i)

-- `while (*p && *p != ' ') p++`
unfoldable pub word_end : ℕ → Bytes → ℕ → Option ℕ
word_end zero line p = none
word_end (suc fuel) line p =
    let rest = word_end fuel line (p + 1) in
    if (line p != 0) && (line p != 32) then rest else some p

-- `while (*p == ' ') p++`
unfoldable pub skip_spaces : ℕ → Bytes → ℕ → Option ℕ
skip_spaces zero line p = none
skip_spaces (suc fuel) line p =
    let rest = skip_spaces fuel line (p + 1) in if line p == 32 then rest else some p

-- where the argument is, and the line afterwards
unfoldable pub split_arg : ℕ → Bytes → Option (ℕ × Bytes)
split_arg fuel line = word_end fuel line 0 >>= λ p.
    if line p == 32
    then (skip_spaces fuel (update line p 0) (p + 1) >>= λ q. some (q, update line p 0))
    else some (p, line)

-- `print_hex`, as the text
pub print_hex : ℕ → ℕ → List ℕ
print_hex v zero = []
print_hex v (suc i) = get_or hex_digits (v / 16 ^ i % 16) 0 ∷ print_hex v i

-- the hexadecimal part of a line of `cmd_hexdump` from the column `i` on
pub hex_part : ℕ → Bytes → ℕ → ℕ → ℕ → List ℕ
hex_part zero buf n off i = []
hex_part (suc left) buf n off i =
    (if ltb (off + i) n then print_hex (buf (off + i)) 2 ++ (32 ∷ []) else 32 ∷ 32 ∷ 32 ∷ [])
    ++ (if i == 7 then 32 ∷ [] else [])
    ++ hex_part left buf n off (i + 1)

-- the characters of the line, `.` for those that do not print
pub ascii_part : ℕ → Bytes → ℕ → ℕ → ℕ → List ℕ
ascii_part zero buf n off i = []
ascii_part (suc left) buf n off i =
    let c = buf (off + i) in
    let rest = ascii_part left buf n off (i + 1) in
    if ltb (off + i) n then (if leb 32 c && ltb c 127 then c else 46) ∷ rest else []

pub dump_line : Bytes → ℕ → ℕ → List ℕ
dump_line buf n off =
    print_hex off 8
    ++ (32 ∷ 32 ∷ [])
    ++ hex_part 16 buf n off 0
    ++ (32 ∷ 124 ∷ [])
    ++ ascii_part 16 buf n off 0
    ++ (124 ∷ 10 ∷ [])

-- the lines from `off` on, of at most 256 bytes
pub dump_lines : ℕ → Bytes → ℕ → ℕ → List ℕ
dump_lines zero buf n off = []
dump_lines (suc left) buf n off =
    let rest = dump_lines left buf n (off + 16) in
    if ltb off n then dump_line buf n off ++ rest else []

pub hexdump_text : Bytes → ℕ → List ℕ
hexdump_text buf size = let n = (if ltb size 256 then size else 256) in dump_lines 16 buf n 0

-- `cmd_dmesg`: the index behind the line at `i`, its newline included
pub line_end : ℕ → Bytes → ℕ → ℕ → ℕ
line_end zero buf n i = i
line_end (suc left) buf n i =
    let rest = line_end left buf n (i + 1) in
    if ltb i n then (if buf i != 10 then rest else i + 1) else i

-- the rows of 80 columns that a line takes
pub line_rows : Bytes → ℕ → ℕ → ℕ
line_rows buf start i =
    let len = i - start in
    let shown = (if ltb 0 len && (buf (i - 1) == 10) then len - 1 else len) in
    if shown == 0 then 1 else (shown + 79) / 80

-- where `cmd_dmesg` stops for an answer: the indices, for the answers that go on
pub page_stops : ℕ → Bytes → ℕ → ℕ → ℕ → List ℕ
page_stops zero buf n i rows = []
page_stops (suc left) buf n i rows =
    let next = line_end (n - i) buf n i in
    let rows1 = add32 rows (line_rows buf i next) in
    let again = page_stops left buf n next 0 in
    let more = page_stops left buf n next rows1 in
    if ltb i n then (if leb 22 rows1 && ltb next n then next ∷ again else more) else []

pub data Command : Type 0 where
  empty : Command
  help : Command
  ls : Command
  cat : Command
  run : Command
  clear_screen : Command
  echo : Command
  meminfo : Command
  hexdump : Command
  dmesg : Command
  mouse : Command
  unknown : Command

-- the names that `shell_run` compares with, in its order
abbrev pub command_names : List (List ℕ × Command)
command_names =
    (104 ∷ 101 ∷ 108 ∷ 112 ∷ [], Command.help)
    ∷ (108 ∷ 115 ∷ [], Command.ls)
    ∷ (99 ∷ 97 ∷ 116 ∷ [], Command.cat)
    ∷ (114 ∷ 117 ∷ 110 ∷ [], Command.run)
    ∷ (99 ∷ 108 ∷ 101 ∷ 97 ∷ 114 ∷ [], Command.clear_screen)
    ∷ (101 ∷ 99 ∷ 104 ∷ 111 ∷ [], Command.echo)
    ∷ (109 ∷ 101 ∷ 109 ∷ 105 ∷ 110 ∷ 102 ∷ 111 ∷ [], Command.meminfo)
    ∷ (104 ∷ 101 ∷ 120 ∷ 100 ∷ 117 ∷ 109 ∷ 112 ∷ [], Command.hexdump)
    ∷ (100 ∷ 109 ∷ 101 ∷ 115 ∷ 103 ∷ [], Command.dmesg)
    ∷ (109 ∷ 111 ∷ 117 ∷ 115 ∷ 101 ∷ [], Command.mouse)
    ∷ []

unfoldable pub find_command : ℕ → Bytes → List (List ℕ × Command) → Option Command
find_command fuel line [] = some Command.unknown
find_command fuel line ((name, command) ∷ names) = str_eq fuel line (text name) 0 >>= λ same.
    if same then some command else find_command fuel line names

-- what a line of input starts, and where its argument is in the line afterwards
unfoldable pub parse_line : ℕ → Bytes → Option (Command × ℕ × Bytes)
parse_line fuel line = split_arg fuel line >>= λ split.
    if split.1 0 == 0
    then some (Command.empty, split.0, split.1)
    else find_command fuel split.1 command_names >>= λ c. some (c, split.0, split.1)
