-- ===== src/Serial/Framing.antt =====
-- The framing of serial_conn.py: what read_line makes of the bytes received.
use grbl_proxy.Prelude.{
  ℕ, zero, suc, ◌+◌, length-append, ◌≡◌, refl, sym, ap, subst, ◌∙◌, Bool, true, false, none, some,
  List, [], ◌∷◌, ◌++◌, ◌==◌, inl, inr, Option-cases, append_assoc, append-nil, length, not, ◌&&◌,
  ◌||◌, ◌≤◌, ◌<◌, arith, if◌then◌else◌,
}
use grbl_proxy.Text.{Text}
use grbl_proxy.Job.{newline}
use grbl_proxy.Job.Contents.{as_file}
use grbl_proxy.Serial.{Serial}
use grbl_proxy.Serial.Reading.{
  Chunk, bytes, failed, find_line, ReadEnd, line, tick, raised, waiting, after_chunk, round,
  read_raw, read_lines,
}

-- The bytes that the reads bring, none of which fails.
abbrev pub received : List Chunk → Text
received [] = []
received (bytes b ∷ cs) = b ++ received cs
received (failed now ∷ cs) = received cs

abbrev pub none_fails : List Chunk → Bool
none_fails [] = true
none_fails (bytes b ∷ cs) = none_fails cs
none_fails (failed now ∷ cs) = false

abbrev pub has_newline : Text → Bool
has_newline [] = false
has_newline (c ∷ s) = c == 10 || has_newline s

abbrev pub none_has_newline : List Text → Bool
none_has_newline [] = true
none_has_newline (l ∷ ls) = not (has_newline l) && none_has_newline ls

-- A line at the head of a text.
record IsHead (l rest s : Text) : Type 0 where
  whole : s ≡ (l ++ newline) ++ rest
  no_newline : has_newline l ≡ false

find_line-IsHead : (s l rest : Text) → find_line s ≡ some (l, rest) → IsHead l rest s
unfolding find_line
find_line-IsHead [] l rest h = cc
find_line-IsHead (c ∷ s) l rest h = elim (Option-cases (find_line s)) [
  | inl none_found ↦ ground arith
  | inr ((k, r), found) ↦ ground (arith, find_line-IsHead s k r found)
]

find_line-none : (s : Text) → find_line s ≡ none → has_newline s ≡ false
unfolding find_line
find_line-none [] h = refl
find_line-none (c ∷ s) h = ground (arith, find_line-none s)

-- What is still to be framed, with the bytes of the reads to come.
abbrev pub still : Serial → List Chunk → Text
still s cs = s.rx_buf ++ received cs

-- A connection that is open, before reads none of which fails.
record IsReady (cs : List Chunk) (s : Serial) : Type 0 where
  is_open : s.is_open ≡ true
  reads : none_fails cs ≡ true

-- How one call ends, the text `t` being still to be framed, with `k` reads to come: it gives the
-- line at the head of the text, or uses up a read, or waits for the end of a line.
abbrev IsRead : Text → ℕ → ReadEnd → Type 0
IsRead t k (line l s cs) = IsReady cs s × IsHead l (still s cs) t × (length cs ≤ k)
IsRead t k (tick s cs) = IsReady cs s × (still s cs ≡ t) × (length cs < k)
IsRead t k (raised s) = ⊥
IsRead t k (waiting s) = (s.rx_buf ≡ t) × (has_newline t ≡ false)

IsRead-more : (t : Text) (k : ℕ) (e : ReadEnd) → IsRead t k e → IsRead t (suc k) e
IsRead-more t k (line l s cs) h = (h.0, h.1, omega arith)
IsRead-more t k (tick s cs) h = (h.0, h.1, omega arith)
IsRead-more t k (raised s) h = h
IsRead-more t k (waiting s) h = h

round-IsRead :
    (read : ReadEnd) (cs : List Chunk) (s : Serial)
    → IsReady cs s
    → (find_line s.rx_buf ≡ none → IsRead (still s cs) (length cs) read)
    → IsRead (still s cs) (length cs) (round read cs s)
round-IsRead read cs s r rest =
    (elim (find_line s.rx_buf)
        as (λ o.
          find_line s.rx_buf ≡ o
          → IsRead (still s cs) (length cs) (elim o [
            | some (l, after) ↦ line l (record s { rx_buf = after }) cs
            | none ↦ if s.is_open then read else raised s
          ])) [
            | some (l, after) ↦ λ e.
                let head = find_line-IsHead s.rx_buf l after e in
                (
                  record { is_open = r.is_open; reads = r.reads },
                  record {
                    whole =
                        ap (λ t. t ++ received cs) head.whole
                        ∙ append_assoc (l ++ newline) after (received cs);
                    no_newline = head.no_newline;
                  },
                  omega arith,
                )
            | none ↦ λ e.
                subst (λ b. IsRead (still s cs) (length cs) (if b then read else raised s))
                  (sym r.is_open) (rest e)
          ])
      refl

read_raw-IsRead :
    (cs : List Chunk) (s : Serial) → IsReady cs s → IsRead (still s cs) (length cs) (read_raw cs s)
unfolding read_raw
read_raw-IsRead [] s r = round-IsRead (waiting s) [] s r (λ e. (
  sym (append-nil s.rx_buf),
  ap (λ t. has_newline t) (append-nil s.rx_buf) ∙ find_line-none s.rx_buf e,
))
read_raw-IsRead (failed now ∷ cs) s r = cc
read_raw-IsRead (bytes b ∷ cs) s r =
    round-IsRead (after_chunk (read_raw cs) (bytes b) cs s) (bytes b ∷ cs) s r (λ e.
      elim b
        as (λ u.
          IsRead (still s (bytes u ∷ cs)) (suc (length cs))
            (after_chunk (read_raw cs) (bytes u) cs s)) [
              | [] ↦ (record { is_open = r.is_open; reads = r.reads }, refl, omega arith)
              | c ∷ u ↦
                  let s' : Serial = record s { rx_buf = s.rx_buf ++ c ∷ u } in
                  subst (λ t. IsRead t (suc (length cs)) (read_raw cs s'))
                    (append_assoc s.rx_buf (c ∷ u) (received cs))
                    (IsRead-more (still s' cs) (length cs) (read_raw cs s')
                      (read_raw-IsRead cs s' (record { is_open = r.is_open; reads = r.reads })))
            ])

-- What calls of read_line have returned when the last of them waits: the lines of the text `t`,
-- whole and in order, and in the buffer what follows the last newline.
abbrev pub AreLines : Text → List Text × ReadEnd → Type 0
AreLines t (ls, waiting s) =
    (t ≡ as_file ls ++ s.rx_buf) × (none_has_newline ls ≡ true) × (has_newline s.rx_buf ≡ false)
AreLines t (ls, line l s cs) = ⊥
AreLines t (ls, tick s cs) = ⊥
AreLines t (ls, raised s) = ⊥

AreLines-line :
    (l rest t : Text) (x : List Text × ReadEnd)
    → IsHead l rest t
    → AreLines rest x
    → AreLines t (l ∷ x.0, x.1)
AreLines-line l rest t (ls, waiting s) h (whole, plain, tail) = (
  h.whole
      ∙ ap (λ u. (l ++ newline) ++ u) whole
      ∙ sym (append_assoc (l ++ newline) (as_file ls) s.rx_buf),
  ground (arith, h.no_newline, plain),
  tail,
)
AreLines-line l rest t (ls, line k s cs) h lines = lines
AreLines-line l rest t (ls, tick s cs) h lines = lines
AreLines-line l rest t (ls, raised s) h lines = lines

head_longer : (l rest t : Text) → IsHead l rest t → length rest < length t
head_longer l rest t h =
    subst (λ u. length rest < length u) (sym h.whole)
      (omega (arith, length-append (l ++ newline) rest, length-append l newline))

-- Calls that start with `m` reads and bytes, and suffice for them.
abbrev AllLines : ℕ → ℕ → Type 0
AllLines n m =
    (cs : List Chunk) (s : Serial)
    → IsReady cs s
    → length cs + length (still s cs) ≤ m
    → AreLines (still s cs) (read_lines n cs s)

-- one call, and what the calls after it do
call-AreLines :
    (n k : ℕ) (t : Text) (e : ReadEnd)
    → ((m : ℕ) → m < k + length t → AllLines n m)
    → IsRead t k e
    → AreLines t (elim e [
      | line l s' cs' ↦ let (ls, e') = read_lines n cs' s' in (l ∷ ls, e')
      | tick s' cs' ↦ read_lines n cs' s'
      | raised s' ↦ ([], raised s')
      | waiting s' ↦ ([], waiting s')
    ])
call-AreLines n k t (line l s' cs') rest h =
    let fewer : length cs' + length (still s' cs') < k + length t =
      omega (arith, h.2, head_longer l (still s' cs') t h.1) in
    AreLines-line l (still s' cs') t (read_lines n cs' s') h.1
      (rest (length cs' + length (still s' cs')) fewer cs' s' h.0 (omega arith))
call-AreLines n k t (tick s' cs') rest h =
    let fewer : length cs' + length (still s' cs') < k + length t =
      subst (λ u. length cs' + length u < k + length t) (sym h.1) (omega (arith, h.2)) in
    subst (λ u. AreLines u (read_lines n cs' s')) h.1
      (rest (length cs' + length (still s' cs')) fewer cs' s' h.0 (omega arith))
call-AreLines n k t (raised s') rest h = h
call-AreLines n k t (waiting s') rest h =
    (sym h.0, refl, subst (λ u. has_newline u ≡ false) (sym h.0) h.1)

read_lines_by : (n m : ℕ) → m < n → AllLines n m
unfolding read_lines
read_lines_by zero m few cs s r h = omega (arith, few)
read_lines_by (suc n) m few cs s r h =
    call-AreLines n (length cs) (still s cs) (read_raw cs s)
      (λ i fewer. read_lines_by n i (omega (arith, fewer, few, h))) (read_raw-IsRead cs s r)

-- Nothing received is lost, made up or reordered, however the reads cut it up: with the port open
-- and reads none of which fails, as many calls of read_line as there are reads and bytes do not
-- raise, and by then the lines returned, each ended by a newline, followed by the bytes still
-- buffered, are exactly the bytes buffered before and then received; no line returned holds a
-- newline, and no whole line is left in the buffer.
pub read_lines-AreLines :
    (n : ℕ) (cs : List Chunk) (s : Serial)
    → s.is_open ≡ true
    → none_fails cs ≡ true
    → length cs + length (s.rx_buf ++ received cs) < n
    → AreLines (s.rx_buf ++ received cs) (read_lines n cs s)
read_lines-AreLines n cs s open_port reads enough =
    read_lines_by n (length cs + length (s.rx_buf ++ received cs)) enough cs s
      (record { is_open = open_port; reads = reads }) (omega arith)
