-- ===== src/Web/Console.antt =====
-- The ring buffer of web/console_log.py. An entry is the time, the direction and the text of a line.
use grbl_proxy.Prelude.{
  ℕ, zero, suc, ◌+◌, ◌-◌, ◌≡◌, refl, ap, ◌∙◌, ◌≤◌, sym, min, append-nil, append_assoc, true, false,
  List, [], ◌∷◌, ◌++◌, ltb, length, drop, length-append, arith, if◌then◌else◌,
}
use grbl_proxy.Text.{Text, strip}

pub data Direction : Type 0 where
  rx tx : Direction

pub record Entry : Type 0 where
  pub t : ℕ
  pub dir : Direction
  pub text : Text

-- `deque(maxlen)`
pub record ConsoleLog : Type 0 where
  pub maxlen : ℕ
  pub lines : List Entry

unfoldable pub new_log : ℕ → ConsoleLog
new_log maxlen = record { maxlen = maxlen; lines = [] }

-- the last `n` of a list
abbrev pub last_of {ℓ} : {A : Type ℓ} → ℕ → List A → List A
last_of n xs = drop (length xs - n) xs

-- add: the deque drops the oldest entry beyond its bound
unfoldable pub add : ℕ → Direction → Text → ConsoleLog → ConsoleLog
unfolding strip
add now dir text log =
    let entry : Entry = record { t = now; dir = dir; text = strip text } in
    record log { lines = last_of log.maxlen (log.lines ++ entry ∷ []) }

-- items[-n:], where -0 is 0
abbrev slice_last : ℕ → List Entry → List Entry
slice_last zero items = items
slice_last (suc n) items = last_of (suc n) items

-- recent
unfoldable pub recent : ℕ → ConsoleLog → List Entry
recent n log = if ltb n (length log.lines) then slice_last n log.lines else log.lines

-- What the log is asked to hold, in order.
unfoldable pub entry_of : ℕ × Direction × Text → Entry
unfolding strip
entry_of (now, dir, text) = record { t = now; dir = dir; text = strip text }

unfoldable pub add_all : List (ℕ × Direction × Text) → ConsoleLog → ConsoleLog
unfolding add
add_all [] log = log
add_all ((now, dir, text) ∷ es) log = add_all es (add now dir text log)

abbrev pub entries : List (ℕ × Direction × Text) → List Entry
entries [] = []
entries (e ∷ es) = entry_of e ∷ entries es

drop-nil {ℓ} : {A : Type ℓ} (n : ℕ) → drop {A = A} n [] ≡ []
drop-nil zero = refl
drop-nil (suc n) = refl

drop-drop {ℓ} : {A : Type ℓ} (m n k : ℕ) (xs : List A) → n + m ≡ k → drop m (drop n xs) ≡ drop k xs
drop-drop m zero k xs h = let e : m ≡ k = omega (arith, h) in ap (λ i. drop i xs) e
drop-drop m (suc n) k [] h = drop-nil m ∙ sym (drop-nil k)
drop-drop m (suc n) zero (x ∷ xs) h = absurd (omega (arith, h))
drop-drop m (suc n) (suc k) (x ∷ xs) h = drop-drop m n k xs (omega (arith, h))

length-drop {ℓ} : {A : Type ℓ} (n : ℕ) (xs : List A) → length (drop n xs) ≡ length xs - n
length-drop zero xs = omega arith
length-drop (suc n) [] = omega arith
length-drop (suc n) (x ∷ xs) = omega (arith, length-drop n xs)

drop-append {ℓ} :
    {A : Type ℓ} (n : ℕ) (xs ys : List A) → n ≤ length xs → drop n xs ++ ys ≡ drop n (xs ++ ys)
drop-append zero xs ys h = refl
drop-append (suc n) [] ys h = absurd (omega (arith, h))
drop-append (suc n) (x ∷ xs) ys h = drop-append n xs ys (omega (arith, h))

-- The last of a list that has been cut before is the last of the whole.
last_of-drop {ℓ} :
    {A : Type ℓ} (n a k : ℕ) (xs : List A)
    → a + (length xs - a - n) ≡ k
    → last_of n (drop a xs) ≡ drop k xs
last_of-drop n a k xs h =
    drop-drop (length (drop a xs) - n) a k xs (omega (arith, length-drop a xs, h))

last_of-snoc :
    (n : ℕ) (xs : List Entry) (e : Entry)
    → last_of n (last_of n xs ++ e ∷ []) ≡ last_of n (xs ++ e ∷ [])
last_of-snoc n xs e =
    let a = length xs - n in
    ap (λ ys. last_of n ys) (drop-append a xs (e ∷ []) (omega arith))
    ∙ last_of-drop n a (length (xs ++ e ∷ []) - n) (xs ++ e ∷ [])
        (omega (arith, length-append xs (e ∷ [])))

add_all-last :
    (es : List (ℕ × Direction × Text)) (log : ConsoleLog) (xs : List Entry)
    → log.lines ≡ last_of log.maxlen xs
    → (add_all es log).lines ≡ last_of log.maxlen (xs ++ entries es)
unfolding add_all add entry_of
add_all-last [] log xs h = h ∙ ap (λ ys. last_of log.maxlen ys) (sym (append-nil xs))
add_all-last ((now, dir, text) ∷ es) log xs h =
    let e = entry_of (now, dir, text) in
    add_all-last es (add now dir text log) (xs ++ e ∷ [])
      (ap (λ ys. last_of log.maxlen (ys ++ e ∷ [])) h ∙ last_of-snoc log.maxlen xs e)
    ∙ ap (λ ys. last_of log.maxlen ys) (append_assoc xs (e ∷ []) (entries es))

recent-last : (n : ℕ) (log : ConsoleLog) → recent (suc n) log ≡ last_of (suc n) log.lines
unfolding recent
recent-last n log =
    elim (ltb (suc n) (length log.lines))
        as (λ b.
          ltb (suc n) (length log.lines) ≡ b
          → (if b then last_of (suc n) log.lines else log.lines) ≡ last_of (suc n) log.lines) [
            | true ↦ λ e. refl
            | false ↦ λ e.
                let none_over : 0 ≡ length log.lines - suc n = ground (arith, e) in
                ap (λ i. drop i log.lines) none_over
          ]
      refl

recent-none : (log : ConsoleLog) → recent 0 log ≡ log.lines
unfolding recent
recent-none log =
    elim (ltb 0 (length log.lines)) as (λ b. (if b then log.lines else log.lines) ≡ log.lines) [
      | true ↦ refl
      | false ↦ refl
    ]

log-lines :
    (maxlen : ℕ) (es : List (ℕ × Direction × Text))
    → (add_all es (new_log maxlen)).lines ≡ last_of maxlen (entries es)
unfolding new_log
log-lines maxlen es = add_all-last es (new_log maxlen) [] (sym (drop-nil (0 - maxlen)))

-- The console log forgets only what is oldest: whatever has been added to a new log, the most recent
-- entries that it is asked for, one or more, are the last of all entries added, as many as are asked
-- for and the log may hold, oldest first; asked for none, it gives all that it holds.
pub recent_of_all :
    (n maxlen : ℕ) (es : List (ℕ × Direction × Text))
    → (recent (suc n) (add_all es (new_log maxlen)) ≡ last_of (min (suc n) maxlen) (entries es))
      × (recent 0 (add_all es (new_log maxlen)) ≡ last_of maxlen (entries es))
recent_of_all n maxlen es = (
  recent-last n (add_all es (new_log maxlen))
      ∙ ap (λ ys. last_of (suc n) ys) (log-lines maxlen es)
      ∙ last_of-drop (suc n) (length (entries es) - maxlen)
          (length (entries es) - min (suc n) maxlen) (entries es) (omega arith),
  recent-none (add_all es (new_log maxlen)) ∙ log-lines maxlen es,
)
