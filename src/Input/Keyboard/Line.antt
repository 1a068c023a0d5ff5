-- ===== src/Input/Keyboard/Line.antt =====
-- The line buffer as the list of the characters typed so far.
use revinix_os.Base.{
  ℕ, zero, suc, ◌+◌, ◌-◌, ◌%◌, ◌≤◌, ◌<◌, ◌≡◌, refl, sym, ap, ◌∙◌, inl, inr, Bool, true, false, ◌||◌,
  arith, List, [], ◌∷◌, ◌++◌, length, length-append, ltb, leb, ◌==◌, if◌then◌else◌, Bool-cases,
  ==_refl, ==_ne, update, get_or,
}
use revinix_os.Input.Keyboard.{
  Keyboard, kb_buf_size, kbd_map, kbd_map_shift, latch, handle_char, handle_scancode,
}

-- the first `n` characters of a buffer
pub contents : ℕ → (ℕ → ℕ) → List ℕ
contents zero buf = []
contents (suc n) buf = contents n buf ++ (buf n ∷ [])

contents-same : (n : ℕ) (a b : ℕ → ℕ) → ((i : ℕ) → i < n → a i ≡ b i) → contents n a ≡ contents n b
unfolding contents
contents-same zero a b h = refl
contents-same (suc n) a b h =
    rw (contents-same n a b (λ i lt. h i (omega arith)), h n (omega arith)) refl

contents-length : (n : ℕ) (buf : ℕ → ℕ) → length (contents n buf) ≡ n
unfolding contents
contents-length zero buf = refl
contents-length (suc n) buf =
    length-append (contents n buf) (buf n ∷ []) ∙ rw (contents-length n buf) (omega arith)

abbrev drop_last : List ℕ → List ℕ
drop_last [] = []
drop_last (x ∷ []) = []
drop_last (x ∷ y ∷ ys) = x ∷ drop_last (y ∷ ys)

drop_last-append : (xs : List ℕ) (y : ℕ) → drop_last (xs ++ (y ∷ [])) ≡ xs
drop_last-append [] y = refl
drop_last-append (x ∷ []) y = refl
drop_last-append (x ∷ z ∷ xs) y = ap (λ ys. x ∷ ys) (drop_last-append (z ∷ xs) y)

-- The line after a character: Enter empties it, backspace takes the last one away, and any other
-- character goes to its end while there is room.
pub edited : List ℕ → ℕ → List ℕ
edited line c =
    if c == 0
    then line
    else if c == 10
    then []
    else if c == 8
    then drop_last line
    else if ltb (length line) (kb_buf_size - 1)
    then line ++ (c ∷ [])
    else line

-- the character of a key press, with Shift or without
pub key_char : Bool → ℕ → ℕ
key_char shift code = get_or (if shift then kbd_map_shift else kbd_map) code 0

latch-below : (left i : ℕ) (src dst : ℕ → ℕ) (j : ℕ) → j < i → latch left i src dst j ≡ dst j
unfolding latch update
latch-below zero i src dst j lo = refl
latch-below (suc left) i src dst j lo =
    latch-below left (i + 1) src (update dst i (src i)) j (omega arith)
    ∙ rw (==_ne j i (omega arith)) refl

latch-at :
    (left i : ℕ) (src dst : ℕ → ℕ) (j : ℕ) → i ≤ j → j < i + left → latch left i src dst j ≡ src j
unfolding latch update
latch-at zero i src dst j lo hi = absurd (omega arith)
latch-at (suc left) i src dst j lo hi = elim (Bool-cases (i == j)) [
  | inl on ↦
      let same : j ≡ i = ground arith in
      rw same
        (latch-below left (i + 1) src (update dst i (src i)) i (omega arith) ∙ rw (==_refl i) refl)
  | inr off ↦ latch-at left (i + 1) src (update dst i (src i)) j (ground arith) (omega arith)
]

abbrev pub line_of : Keyboard → List ℕ
line_of k = contents k.line_len k.line_buf

-- A line of at most 127 characters: the buffer has room for the 0 behind it.
abbrev pub IsValid : Keyboard → Type 0
IsValid k = k.line_len < kb_buf_size

-- the characters of a completed line, and the 0 behind them
pub record Latched (k : Keyboard) (line : List ℕ) : Type 0 where
  pub ready : k.line_ready ≡ true
  pub text : contents (length line) k.ready_line ≡ line
  pub ended : k.ready_line (length line) ≡ 0

contents-shorter : (n : ℕ) (buf : ℕ → ℕ) → contents (n - 1) buf ≡ drop_last (contents n buf)
unfolding contents
contents-shorter zero buf = refl
contents-shorter (suc n) buf =
    let e : suc n - 1 ≡ n = omega arith in rw e (sym (drop_last-append (contents n buf) (buf n)))

contents-longer :
    (n : ℕ) (buf : ℕ → ℕ) (c : ℕ) → contents (n + 1) (update buf n c) ≡ contents n buf ++ (c ∷ [])
unfolding contents update
contents-longer n buf c =
    let e : n + 1 ≡ suc n = omega arith in
    rw (e, ==_refl n)
      (ap (λ xs. xs ++ (c ∷ []))
        (contents-same n (update buf n c) buf (λ i lt. rw (==_ne i n (omega arith)) refl)))

handle_char-edited :
    (k : Keyboard) (c : ℕ)
    → IsValid k
    → IsValid (handle_char k c).0 × (line_of (handle_char k c).0 ≡ edited (line_of k) c)
unfolding handle_char edited
handle_char-edited k c valid = elim (Bool-cases (c == 0)) [
  | inl zero_ ↦ rw zero_ (valid, refl)
  | inr some_ ↦ elim (Bool-cases (c == 10)) [
    | inl enter ↦ rw (some_, enter) (omega arith, unfold contents in refl)
    | inr other ↦ elim (Bool-cases (c == 8)) [
      | inl back ↦ elim (Bool-cases (ltb 0 k.line_len)) [
        | inl on ↦ rw (some_, other, back, on) (omega arith, contents-shorter k.line_len k.line_buf)
        | inr off ↦
            let empty : k.line_len - 1 ≡ k.line_len = ground arith in
            rw (some_, other, back, off)
              (
                valid,
                ap (λ n. contents n k.line_buf) (sym empty)
                    ∙ contents-shorter k.line_len k.line_buf,
              )
      ]
      | inr char ↦ elim (Bool-cases (ltb k.line_len 127)) [
        | inl on ↦
            rw (some_, other, char, contents-length k.line_len k.line_buf, on)
              (ground arith, contents-longer k.line_len k.line_buf c)
        | inr off ↦
            rw (some_, other, char, contents-length k.line_len k.line_buf, off) (valid, refl)
      ]
    ]
  ]
]

handle_char-Latched : (k : Keyboard) → Latched (handle_char k 10).0 (line_of k)
unfolding handle_char update
handle_char-Latched k =
    let n : length (line_of k) ≡ k.line_len = contents-length k.line_len k.line_buf in
    record {
      ready = refl;
      text = rw n (
          contents-same k.line_len
            (latch (k.line_len + 1) 0 (update k.line_buf k.line_len 0) k.ready_line) k.line_buf
            (λ i lt.
              latch-at (k.line_len + 1) 0 (update k.line_buf k.line_len 0) k.ready_line i
                (omega arith) (omega arith)
              ∙ rw (==_ne i k.line_len (omega arith)) refl));
      ended = rw n (
          latch-at (k.line_len + 1) 0 (update k.line_buf k.line_len 0) k.ready_line k.line_len
            (omega arith) (omega arith)
          ∙ rw (==_refl k.line_len) refl);
    }

pub is_shift : ℕ → Bool
is_shift code = (code == 0x2a) || (code == 0x36)

-- With room for a line of 127 characters kept, a scancode below 128 other than Shift edits the line
-- with the character that the maps give it, Enter passes the whole line on with a 0 behind it, and
-- every release and the Shift keys leave the line.
pub handle_scancode-edited :
    (k : Keyboard) (code : ℕ)
    → IsValid k
    → let k' = (handle_scancode k code).0 in
      let c = key_char k.shift_down code in
      IsValid k'
      × (line_of k' ≡ (if leb 128 code || is_shift code then line_of k else edited (line_of k) c))
      × (leb 128 code || is_shift code ≡ false → c ≡ 10 → Latched k' (line_of k))
unfolding handle_scancode key_char is_shift
handle_scancode-edited k code valid = elim (Bool-cases (leb 128 code)) [
  | inl up ↦ elim (Bool-cases ((code % 128 == 0x2a) || (code % 128 == 0x36))) [
    | inl on ↦ rw (up, on) (valid, refl, λ e. absurd (ground arith))
    | inr off ↦ rw (up, off) (valid, refl, λ e. absurd (ground arith))
  ]
  | inr down ↦ elim (Bool-cases ((code == 0x2a) || (code == 0x36))) [
    | inl on ↦ rw (down, on) (valid, refl, λ e. absurd (ground arith))
    | inr off ↦
        let c : ℕ = get_or (if k.shift_down then kbd_map_shift else kbd_map) code 0 in
        let (valid', line) = handle_char-edited k c valid in
        rw (down, off) (valid', line, λ e enter. rw enter (handle_char-Latched k))
  ]
]
