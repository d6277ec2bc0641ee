-- ===== src/Listener/Http/Head.antt =====
-- The head of an HTTP request: how it begins, and what the lines are.
use rog.Prelude.{
  ℕ, ◌≡◌, refl, true, false, Bool-cases, inl, inr, Option, none, some, [], ◌∷◌, ◌++◌, append_assoc,
  arith, ok, err, other, ◌⊎◌, drop, Option-cases,
}
use rog.Prelude.Word.{Bytes}
use rog.Text.{is_utf8}
use rog.Text.Search.{is_prefix, find, prepend}
use rog.Text.Lines.{Line}
use rog.Listener.Http.{crlf, crlf_crlf, head_and_body, with_body}

-- The head in what `find` finds.
abbrev pub head : Bytes → Option (Bytes × Bytes) → Bytes
head all none = all
head all (some (before, behind)) = before ++ crlf_crlf

abbrev pub head_of : Bytes → Bytes
head_of d = head d (find crlf_crlf d)

abbrev behind_line : Bytes → Bytes → Option (Bytes × Bytes) → Option (Bytes × Bytes)
behind_line f z none = none
behind_line f z (some (before, behind)) = some (f ++ (crlf ++ before), behind)

Line-tail : (b : ℕ) (l : Bytes) → Line (b ∷ l) → Line l
Line-tail b [] h = tt
Line-tail b (c ∷ l) h = h.1

-- No empty line begins inside a line.
inside : (b : ℕ) (f z : Bytes) → Line (b ∷ f) → is_prefix crlf_crlf (b ∷ (f ++ (crlf ++ z))) ≡ false
unfolding is_prefix
inside b [] z h = ground arith
inside b (c ∷ f) z h = ground (arith, h.0)

-- A line that an empty line follows.
find-empty :
    (f z : Bytes)
    → Line f
    → is_prefix crlf z ≡ true
    → find crlf_crlf (f ++ (crlf ++ z)) ≡ some (f, crlf ++ z)
unfolding find is_prefix
find-empty [] z h e = ground arith
find-empty (b ∷ f) z h e = rw (find-empty f z (Line-tail b f h) e) (ground (arith, inside b f z h))

prepend-behind_line :
    (b : ℕ) (f z : Bytes) (o : Option (Bytes × Bytes))
    → prepend b (behind_line f z o) ≡ behind_line (b ∷ f) z o
prepend-behind_line b f z none = refl
prepend-behind_line b f z (some p) = refl

-- A line that another line follows.
find-next :
    (f z : Bytes)
    → Line f
    → is_prefix crlf z ≡ false
    → find crlf_crlf (f ++ (crlf ++ z)) ≡ behind_line f z (find crlf_crlf z)
unfolding find is_prefix
find-next [] z h e = elim (Option-cases (find crlf_crlf z)) [
  | inl n ↦ rw n (ground arith)
  | inr (p, q) ↦ rw q (ground arith)
]
find-next (b ∷ f) z h e =
    rw (find-next f z (Line-tail b f h) e)
      (rw (prepend-behind_line b f z (find crlf_crlf z)) (ground (arith, inside b f z h)))

head-behind_line :
    (f z : Bytes) (o : Option (Bytes × Bytes))
    → head (f ++ (crlf ++ z)) (behind_line f z o) ≡ f ++ (crlf ++ head z o)
head-behind_line f z none = refl
head-behind_line f z (some (before, behind)) = append_assoc f (crlf ++ before) crlf_crlf

-- The head of a request goes on behind its first line.
pub head_of-next :
    (f z : Bytes)
    → Line f
    → is_prefix crlf z ≡ false
    → head_of (f ++ (crlf ++ z)) ≡ f ++ (crlf ++ head_of z)
head_of-next f z h e = rw (find-next f z h e) (head-behind_line f z (find crlf_crlf z))

pub head_of-Line :
    (f z : Bytes) → Line f → (x : Bytes) × (head_of (f ++ (crlf ++ z)) ≡ f ++ (crlf ++ x))
head_of-Line f z h = elim (Bool-cases (is_prefix crlf z)) [
  | inl e ↦ (crlf, rw (find-empty f z h e) refl)
  | inr e ↦ (head_of z, head_of-next f z h e)
]

with_body-head :
    (d : Bytes) (o : Option (Bytes × Bytes)) {str : Bytes} {body : Option Bytes}
    → with_body d o ≡ ok (str, body)
    → (str ≡ head d o) × (is_utf8 (head d o) ≡ true)
with_body-head d none e = elim (Bool-cases (is_utf8 d)) [
  | inl u ↦ (ground (arith, u, e), u)
  | inr u ↦ absurd (ground (arith, u, e))
]
with_body-head d (some (before, behind)) e = elim (Bool-cases (is_utf8 (before ++ crlf_crlf))) [
  | inl u ↦ (ground (arith, u, e), u)
  | inr u ↦ absurd (ground (arith, u, e))
]

pub head_and_body-head :
    (d : Bytes) {str : Bytes} {body : Option Bytes}
    → head_and_body d ≡ ok (str, body)
    → (str ≡ head_of d) × (is_utf8 (head_of d) ≡ true)
unfolding head_and_body
head_and_body-head d e = with_body-head d (find crlf_crlf d) e

with_body-cases :
    (d : Bytes) (o : Option (Bytes × Bytes))
    → ((body : Option Bytes) × (with_body d o ≡ ok (head d o, body)))
      ⊎ (with_body d o ≡ err other "invalid utf-8 sequence")
with_body-cases d none = elim (Bool-cases (is_utf8 d)) [
  | inl u ↦ inl (none, rw u refl)
  | inr u ↦ inr (rw u refl)
]
with_body-cases d (some (before, behind)) = elim (Bool-cases (is_utf8 (before ++ crlf_crlf))) [
  | inl u ↦ inl (some (drop 4 behind), rw u refl)
  | inr u ↦ inr (rw u refl)
]

pub head_and_body-cases :
    (d : Bytes)
    → ((body : Option Bytes) × (head_and_body d ≡ ok (head_of d, body)))
      ⊎ (head_and_body d ≡ err other "invalid utf-8 sequence")
unfolding head_and_body
head_and_body-cases d = with_body-cases d (find crlf_crlf d)

pub head_and_body-ok :
    (d : Bytes)
    → is_utf8 (head_of d) ≡ true
    → (body : Option Bytes) × (head_and_body d ≡ ok (head_of d, body))
unfolding head_and_body
head_and_body-ok d u = go (find crlf_crlf d) u
  where
    go :
        (o : Option (Bytes × Bytes))
        → is_utf8 (head d o) ≡ true
        → (body : Option Bytes) × (with_body d o ≡ ok (head d o, body))
    go none u = (none, rw u refl)
    go (some (before, behind)) u = (some (drop 4 behind), rw u refl)
