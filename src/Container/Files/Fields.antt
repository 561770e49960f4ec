-- ===== src/Container/Files/Fields.antt =====
-- About strings.Fields and the lines of a file that is read by fields.
use mathlib.Core.Path.{subst}
use wirez.Config.Mapping.{split, put_first}
use wirez.Config.Mapping.Laws.{split-append}
use wirez.Container.Files.{is_space, begins_word, put_char, fields, join}
use wirez.Prelude.{
  ◌&&◌, ℕ, ◌≡◌, ◌≢◌, inl, inr, refl, sym, ap, ◌∙◌, Bool, true, false, not, List, [], ◌∷◌, ◌++◌,
  append-nil, Bytes, has, has-append, All, Bool-cases, ◌==◌, ==_iff,
}

-- A word: something, and no space in it.
abbrev pub IsWord : Bytes → Type 0
IsWord w = (w ≢ []) × All (λ c. is_space c ≡ false) w

filled : (c : ℕ) (s : Bytes) → c ∷ s ≢ []
filled c s e = cc

fields-char :
    (c : ℕ) (s : Bytes)
    → is_space c ≡ false
    → fields (c ∷ s) ≡ put_char (begins_word s) c (fields s)
unfolding fields
fields-char c s h = rw h refl

fields-space : (c : ℕ) (s : Bytes) → is_space c ≡ true → fields (c ∷ s) ≡ fields s
unfolding fields
fields-space c s h = rw h refl

-- A word in front of a space, or of the end.
pub fields-word :
    (w rest : Bytes) → IsWord w → begins_word rest ≡ false → fields (w ++ rest) ≡ w ∷ fields rest
fields-word [] rest v b = absurd (v.0 refl)
fields-word (c ∷ []) rest v b = fields-char c rest v.1.0 ∙ ap (λ x. put_char x c (fields rest)) b
fields-word (c ∷ d ∷ w) rest v b =
    let later : fields ((d ∷ w) ++ rest) ≡ (d ∷ w) ∷ fields rest =
      fields-word (d ∷ w) rest (filled d w, v.1.1) b in
    fields-char c ((d ∷ w) ++ rest) v.1.0
    ∙ ap (put_char (begins_word ((d ∷ w) ++ rest)) c) later
    ∙ ap (λ x. put_char (not x) c ((d ∷ w) ∷ fields rest)) v.1.1.0

pub fields-join : (ws : List Bytes) → All IsWord ws → fields (join ws) ≡ ws
unfolding fields
fields-join [] v = refl
fields-join (w ∷ []) v = ap fields (sym (append-nil w)) ∙ fields-word w [] v.0 refl
fields-join (w ∷ u ∷ ws) v =
    fields-word w (b' ' ∷ join (u ∷ ws)) v.0 refl ∙ ap (λ x. w ∷ x) (fields-join (u ∷ ws) v.1)

put_char-IsWord :
    (b : Bool) (c : ℕ) (ws : List Bytes)
    → is_space c ≡ false
    → All IsWord ws
    → All IsWord (put_char b c ws)
put_char-IsWord true c [] h v = ((filled c [], (h, tt)), tt)
put_char-IsWord true c (w ∷ ws) h v = ((filled c w, (h, v.0.1)), v.1)
put_char-IsWord false c ws h v = ((filled c [], (h, tt)), v)

pub fields-IsWord : (s : Bytes) → All IsWord (fields s)
unfolding fields
fields-IsWord [] = tt
fields-IsWord (c ∷ s) = elim (Bool-cases (is_space c)) [
  | inl e ↦ subst (All IsWord) (sym (fields-space c s e)) (fields-IsWord s)
  | inr e ↦
      subst (All IsWord) (sym (fields-char c s e))
        (put_char-IsWord (begins_word s) c (fields s) e (fields-IsWord s))
]

word-one_line : (w : Bytes) → All (λ c. is_space c ≡ false) w → has b'\n' w ≡ false
word-one_line [] v = refl
word-one_line (c ∷ w) v = elim (Bool-cases (c == b'\n')) [
  | inl e ↦ absurd (cc (sym (ap is_space ((==_iff c b'\n').0 e)) ∙ v.0))
  | inr e ↦ rw (e, word-one_line w v.1) refl
]

join-one_line : (ws : List Bytes) → All IsWord ws → has b'\n' (join ws) ≡ false
join-one_line [] v = refl
join-one_line (w ∷ []) v = word-one_line w v.0.1
join-one_line (w ∷ u ∷ ws) v =
    has-append b'\n' w (b' ' ∷ join (u ∷ ws))
    ∙ rw (word-one_line w v.0.1, join-one_line (u ∷ ws) v.1) refl

-- What a program reads that goes through the lines of a file and takes the fields of each that has
-- any: the file's directives.
abbrev pub add_line : List Bytes → List (List Bytes) → List (List Bytes)
add_line [] ds = ds
add_line (f ∷ fs) ds = (f ∷ fs) ∷ ds

unfoldable pub of_lines : List Bytes → List (List Bytes)
of_lines [] = []
of_lines (l ∷ ls) = add_line (fields l) (of_lines ls)

abbrev pub directives : Bytes → List (List Bytes)
directives s = of_lines (split b'\n' s)

-- A line that is written from words, in front of the rest of a file.
pub directives-join :
    (f : Bytes) (fs : List Bytes) (rest : Bytes)
    → All IsWord (f ∷ fs)
    → directives (join (f ∷ fs) ++ b'\n' ∷ rest) ≡ (f ∷ fs) ∷ directives rest
unfolding of_lines
directives-join f fs rest v =
    ap of_lines (split-append b'\n' (join (f ∷ fs)) rest (join-one_line (f ∷ fs) v))
    ∙ ap (λ x. add_line x (directives rest)) (fields-join (f ∷ fs) v)

-- The test for a word, for words that are written out.
abbrev pub no_space : Bytes → Bool
no_space [] = true
no_space (c ∷ s) = not (is_space c) && no_space s

pub no_space-All : (s : Bytes) → no_space s ≡ true → All (λ c. is_space c ≡ false) s
no_space-All [] h = tt
no_space-All (c ∷ s) h = elim (Bool-cases (is_space c)) [
  | inl e ↦ absurd (cc (sym (ap (λ x. not x && no_space s) e) ∙ h))
  | inr e ↦ (e, no_space-All s (sym (ap (λ x. not x && no_space s) e) ∙ h))
]

pub literal-IsWord : (c : ℕ) (s : Bytes) → no_space (c ∷ s) ≡ true → IsWord (c ∷ s)
literal-IsWord c s h = (filled c s, no_space-All (c ∷ s) h)

of_lines-append : (ls ms : List Bytes) → of_lines (ls ++ ms) ≡ of_lines ls ++ of_lines ms
unfolding of_lines
of_lines-append [] ms = refl
of_lines-append (l ∷ ls) ms =
    ap (add_line (fields l)) (of_lines-append ls ms)
    ∙ add_line-append (fields l) (of_lines ls) (of_lines ms)
  where
    add_line-append :
        (fs : List Bytes) (ds es : List (List Bytes))
        → add_line fs (ds ++ es) ≡ add_line fs ds ++ es
    add_line-append [] ds es = refl
    add_line-append (f ∷ fs) ds es = refl

put_first-append :
    (x : ℕ) (ps qs : List Bytes) → ps ≢ [] → put_first x (ps ++ qs) ≡ put_first x ps ++ qs
put_first-append x [] qs h = absurd (h refl)
put_first-append x (p ∷ ps) qs h = refl

put_first_filled : (x : ℕ) (ps : List Bytes) → put_first x ps ≢ []
put_first_filled x [] e = cc
put_first_filled x (p ∷ ps) e = cc

split_filled : (c : ℕ) (s : Bytes) → split c s ≢ []
unfolding split
split_filled c [] = λ e. cc
split_filled c (x ∷ s) = elim (Bool-cases (x == c)) [
  | inl e ↦ rw e (λ q. cc)
  | inr e ↦ rw e (put_first_filled x (split c s))
]

split_both : (c : ℕ) (s t : Bytes) → split c (s ++ c ∷ t) ≡ split c s ++ split c t
unfolding split
split_both c [] t = rw ((==_iff c c).1 refl) refl
split_both c (x ∷ s) t = elim (Bool-cases (x == c)) [
  | inl e ↦ rw e (ap (◌∷◌ []) (split_both c s t))
  | inr e ↦ rw e (
      ap (put_first x) (split_both c s t)
      ∙ put_first-append x (split c s) (split c t) (split_filled c s))
]

-- The directives of two files, one behind the other with a line's end between them.
pub directives-append : (s t : Bytes) → directives (s ++ b'\n' ∷ t) ≡ directives s ++ directives t
directives-append s t =
    ap of_lines (split_both b'\n' s t) ∙ of_lines-append (split b'\n' s) (split b'\n' t)
