-- ===== src/Container/Files/Kept.antt =====
-- About resolvConfContent of run_container.go: which lines of the host's file stay.
use wirez.Config.Mapping.{split}
use wirez.Container.Files.{fields, join, is_kept, keep_line, keep_lines}
use wirez.Container.Files.Fields.{
  IsWord, fields-IsWord, add_line, of_lines, directives, directives-join,
}
use wirez.Prelude.{
  ◌≡◌, inl, inr, refl, sym, ap, ◌∙◌, Bool, true, false, List, [], ◌∷◌, ◌++◌, append_assoc, Bytes,
  bytes, equal, ◌||◌, All, Bool-cases, if◌then◌else◌,
}

-- The words of resolv.conf that the container takes over from the host.
abbrev pub kept_words : List Bytes
kept_words = bytes "search" ∷ bytes "domain" ∷ bytes "options" ∷ bytes "sortlist" ∷ []

abbrev pub among : Bytes → List Bytes → Bool
among f [] = false
among f (w ∷ ws) = equal f w || among f ws

or_assoc : (a b c d : Bool) → (a || (b || (c || (d || false)))) ≡ (((a || b) || c) || d)
or_assoc true b c d = refl
or_assoc false true c d = refl
or_assoc false false true d = refl
or_assoc false false false true = refl
or_assoc false false false false = refl

among-kept_words : (f : Bytes) → among f kept_words ≡ is_kept f
among-kept_words f =
    or_assoc (equal f (bytes "search")) (equal f (bytes "domain")) (equal f (bytes "options"))
      (equal f (bytes "sortlist"))

-- The directives that stay: those that begin with one of these words.
abbrev pub only_kept : List (List Bytes) → List (List Bytes)
only_kept [] = []
only_kept ([] ∷ ds) = only_kept ds
only_kept ((f ∷ fs) ∷ ds) =
    let rest = only_kept ds in if among f kept_words then (f ∷ fs) ∷ rest else rest

only_kept-cons :
    (f : Bytes) (fs : List Bytes) (ds : List (List Bytes))
    → only_kept ((f ∷ fs) ∷ ds) ≡ (if is_kept f then (f ∷ fs) ∷ only_kept ds else only_kept ds)
only_kept-cons f fs ds = rw (among-kept_words f) refl

kept_line :
    (fs : List Bytes) (rest : Bytes) (ds : List (List Bytes))
    → All IsWord fs
    → directives rest ≡ only_kept ds
    → directives (keep_line fs ++ rest) ≡ only_kept (add_line fs ds)
kept_line [] rest ds v e = e
kept_line (f ∷ fs) rest ds v e = elim (Bool-cases (is_kept f)) [
  | inl k ↦
      let text : keep_line (f ∷ fs) ++ rest ≡ join (f ∷ fs) ++ b'\n' ∷ rest =
        rw k (append_assoc (join (f ∷ fs)) (b'\n' ∷ []) rest) in
      ap directives text
      ∙ directives-join f fs rest v
      ∙ ap (λ x. (f ∷ fs) ∷ x) e
      ∙ sym (only_kept-cons f fs ds ∙ rw k refl)
  | inr k ↦ rw k (e ∙ sym (only_kept-cons f fs ds ∙ rw k refl))
]

pub directives-keep_lines : (ls : List Bytes) → directives (keep_lines ls) ≡ only_kept (of_lines ls)
unfolding keep_lines of_lines fields split
directives-keep_lines [] = refl
directives-keep_lines (l ∷ ls) =
    kept_line (fields l) (keep_lines ls) (of_lines ls) (fields-IsWord l) (directives-keep_lines ls)
