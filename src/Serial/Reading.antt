-- ===== src/Serial/Reading.antt =====
-- read_line of serial_conn.py.
use grbl_proxy.Prelude.{
  ℕ, zero, suc, Bool, Option, none, some, List, [], ◌∷◌, ◌++◌, ◌==◌, if◌then◌else◌,
}
use grbl_proxy.Text.{Text, is_empty, drop_while_end}
use grbl_proxy.Serial.{Serial, close_immediately, note_io_failure}

-- How one blocking read ends: with bytes, none of them at a timeout, or with an error at a time.
pub data Chunk : Type 0 where
  bytes : Text → Chunk
  failed : ℕ → Chunk

abbrev pub put_found : ℕ → Option (Text × Text) → Option (Text × Text)
put_found c none = none
put_found c (some (l, rest)) = some (c ∷ l, rest)

-- the first line of the buffer and what follows its newline
unfoldable pub find_line : Text → Option (Text × Text)
find_line [] = none
find_line (c ∷ s) = let later = find_line s in if c == 10 then some ([], s) else put_found c later

-- How a call ends: with a line, with the "" of a timeout, with SerialDisconnectedError; `waiting` if
-- the reads given do not suffice. The reads that are left come with it.
pub data ReadEnd : Type 0 where
  line : Text → Serial → List Chunk → ReadEnd
  tick : Serial → List Chunk → ReadEnd
  raised : Serial → ReadEnd
  waiting : Serial → ReadEnd

-- a read that has ended, `rest` being the next round of the loop
abbrev pub after_chunk : (Serial → ReadEnd) → Chunk → List Chunk → Serial → ReadEnd
after_chunk rest (failed now) cs s = raised (close_immediately (note_io_failure now s))
after_chunk rest (bytes b) cs s =
    if is_empty b then tick s cs else rest (record s { rx_buf = s.rx_buf ++ b })

-- one round of the loop, up to the read
abbrev pub round : ReadEnd → List Chunk → Serial → ReadEnd
round read cs s = elim (find_line s.rx_buf) [
  | some (l, rest) ↦ line l (record s { rx_buf = rest }) cs
  | none ↦ if s.is_open then read else raised s
]

-- read_line, without the decoding of the line
unfoldable pub read_raw : List Chunk → Serial → ReadEnd
unfolding find_line close_immediately note_io_failure
read_raw [] s = round (waiting s) [] s
read_raw (c ∷ cs) s = round (after_chunk (read_raw cs) c cs s) (c ∷ cs) s

abbrev is_cr : ℕ → Bool
is_cr c = c == 13

module _ (decode : Text → Text) where
  -- `line.decode(errors="replace").rstrip("\r")`
  unfoldable pub text_of : Text → Text
  unfolding drop_while_end
  text_of raw = drop_while_end is_cr (decode raw)

  -- what read_line returns: "" at a timeout, `none` for an exception or while it waits
  unfoldable pub read_line : List Chunk → Serial → Option Text
  unfolding read_raw text_of
  read_line cs s = elim (read_raw cs s) [
    | line raw s' cs' ↦ some (text_of raw)
    | tick s' cs' ↦ some []
    | raised s' ↦ none
    | waiting s' ↦ none
  ]

-- The raw lines that `n` calls of read_line return, and how the last of them ends, at an exception
-- at the latest; `tick` also stands for "all calls have returned".
unfoldable pub read_lines : ℕ → List Chunk → Serial → List Text × ReadEnd
unfolding read_raw
read_lines zero cs s = ([], tick s cs)
read_lines (suc n) cs s = elim (read_raw cs s) [
  | line l s' cs' ↦ let (ls, e) = read_lines n cs' s' in (l ∷ ls, e)
  | tick s' cs' ↦ read_lines n cs' s'
  | raised s' ↦ ([], raised s')
  | waiting s' ↦ ([], waiting s')
]
