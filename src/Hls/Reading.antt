-- ===== src/Hls/Reading.antt =====
-- A reader of playlists, and what it finds in the texts that `Render` of
-- pkg/streaming/hls/playlist.go writes.
use Prim.Native.Char.{Char, code}
use Prim.Native.String.{String, [], ◌∷◌, ◌++◌ as ◌<>◌}
use text.Mathlib.TextLemmas.{nil-append, cons-append}
use zenlive.Common.{
  ◌≡◌, refl, ap, ◌∙◌, Bool, true, false, not, ◌&&◌, ◌==◌, List, [], ◌∷◌, ◌++◌, if◌then◌else◌, All,
  All-append, arith,
}
use zenlive.Hls.Render.{written}

-- The text is part of one line.
unfoldable pub no_break : String → Bool
no_break [] = true
no_break (c ∷ s) = not (code c == b'\n') && no_break s

-- A character in front of the first line.
unfoldable pub push : Char → List String → List String
push c [] = (c ∷ []) ∷ []
push c (line ∷ lines) = (c ∷ line) ∷ lines

-- The lines of a text, of which the last one may lack its end.
unfoldable pub split_lines : String → List String
split_lines [] = []
split_lines (c ∷ s) = let rest = split_lines s in if code c == b'\n' then "" ∷ rest else push c rest

-- A line that is neither blank nor starts with '#' is a URI.
unfoldable pub is_uri : String → Bool
is_uri [] = false
is_uri (c ∷ _) = not (code c == b'#')

unfoldable pub uris_of : List String → List String
uris_of [] = []
uris_of (line ∷ lines) = let rest = uris_of lines in if is_uri line then line ∷ rest else rest

-- The URIs of a playlist, as a player reads them.
abbrev pub uris : String → List String
uris text = uris_of (split_lines text)

newline-append : (s : String) → "\n" <> s ≡ "\n" ∷ s
newline-append s = cons-append "\n" [] s ∙ ap (λ t. "\n" ∷ t) (nil-append s)

split_lines-line :
    (line rest : String)
    → no_break line ≡ true
    → split_lines (line <> ("\n" <> rest)) ≡ line ∷ split_lines rest
unfolding no_break split_lines push
split_lines-line [] rest h = rw (nil-append, newline-append rest) refl
split_lines-line (c ∷ line) rest h =
    rw (cons-append c line ("\n" <> rest)) (ground (arith, split_lines-line line rest))

abbrev pub IsLine : String → Type 0
IsLine s = no_break s ≡ true

pub append-IsLine : (s t : String) → IsLine s → IsLine t → IsLine (s <> t)
unfolding no_break
append-IsLine [] t h k = rw (nil-append) k
append-IsLine (c ∷ s) t h k = rw (cons-append) (ground (arith, append-IsLine s t))

split_lines-written : (lines : List String) → All IsLine lines → split_lines (written lines) ≡ lines
unfolding split_lines written
split_lines-written [] h = refl
split_lines-written (line ∷ lines) (h, hs) =
    split_lines-line line (written lines) h ∙ ap (λ r. line ∷ r) (split_lines-written lines hs)

-- Written lines in which a reader finds the URIs `found`.
pub record Lists (lines found : List String) : Type 0 where
  pub unbroken : All IsLine lines
  pub reads : uris_of lines ≡ found

pub uris-written : (lines found : List String) → Lists lines found → uris (written lines) ≡ found
uris-written lines found l = ap uris_of (split_lines-written lines l.unbroken) ∙ l.reads

uris_of-append : (xs ys : List String) → uris_of (xs ++ ys) ≡ uris_of xs ++ uris_of ys
unfolding uris_of
uris_of-append [] ys = refl
uris_of-append (x ∷ xs) ys = ground (arith, uris_of-append xs ys)

pub Lists-nil : Lists [] []
unfolding uris_of
Lists-nil = record { unbroken = tt; reads = refl }

pub Lists-append : (xs ys a b : List String) → Lists xs a → Lists ys b → Lists (xs ++ ys) (a ++ b)
Lists-append xs ys a b l m = record {
  unbroken = All-append IsLine xs ys l.unbroken m.unbroken;
  reads = uris_of-append xs ys ∙ (ap (λ r. r ++ uris_of ys) l.reads ∙ ap (λ r. a ++ r) m.reads);
}

-- A line that starts with a text with '#' in front.
abbrev is_comment : String → Bool
is_comment [] = false
is_comment (c ∷ _) = code c == b'#'

is_uri-append : (s t : String) → is_comment s ≡ true → is_uri (s <> t) ≡ false
unfolding is_uri
is_uri-append [] t h = ground arith
is_uri-append (c ∷ s) t h = rw (cons-append) (ground arith)

pub Lists-tag :
    (s t : String) → IsLine s → is_comment s ≡ true → IsLine t → Lists ((s <> t) ∷ []) []
unfolding uris_of
Lists-tag s t h c k = record {
  unbroken = (append-IsLine s t h k, tt);
  reads = rw (is_uri-append s t c) refl;
}

pub Lists-uri : (s : String) → IsLine s → is_uri s ≡ true → Lists (s ∷ []) (s ∷ [])
unfolding uris_of
Lists-uri s h u = record { unbroken = (h, tt); reads = rw u refl }
