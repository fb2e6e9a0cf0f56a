-- ===== src/Rtmp/Amf/Entries.antt =====
-- The entries of a decoded object: `obj[name] = value` for one entry after the other.
use zenlive.Common.{◌≡◌, ◌≢◌, refl, sym, ap, ◌∙◌, false, [], ◌∷◌, ◌==◌, Bool-cases, inl, inr, arith}
use zenlive.Rtmp.{Bytes}
use zenlive.Rtmp.Amf.{Value, Props, nil, prop}
use zenlive.Rtmp.Amf.Decoder.{same_bytes, set_prop}
use zenlive.Rtmp.Amf.Printed.{Absent}

not_same : (a b : Bytes) → a ≢ b → same_bytes a b ≡ false
not_same [] [] n = absurd (n refl)
not_same [] (y ∷ ys) n = refl
not_same (x ∷ xs) [] n = refl
not_same (x ∷ xs) (y ∷ ys) n = elim (Bool-cases (x == y)) [
  | inl e ↦ let p : x ≡ y = ground arith in rw e (not_same xs ys (λ q. n (cc)))
  | inr e ↦ rw e
]

module _ {Int : Type 0} where
  -- The entries set one after the other.
  unfoldable pub add_all : Props Int → Props Int → Props Int
  add_all obj nil = obj
  add_all obj (prop name v props) = add_all (set_prop name v obj) props

  -- The entries of one list behind those of the other.
  abbrev pub append_props : Props Int → Props Int → Props Int
  append_props nil ps = ps
  append_props (prop name v obj) ps = prop name v (append_props obj ps)

  append_props_assoc :
      (a b c : Props Int) → append_props (append_props a b) c ≡ append_props a (append_props b c)
  append_props_assoc nil b c = refl
  append_props_assoc (prop name v a) b c = ap (prop name v) (append_props_assoc a b c)

  append_props_nil : (obj : Props Int) → append_props obj nil ≡ obj
  append_props_nil nil = refl
  append_props_nil (prop name v obj) = ap (prop name v) (append_props_nil obj)

  -- No name of the second list stands twice, or in the first.
  abbrev pub Apart : Props Int → Props Int → Type 0
  Apart obj nil = Unit {0}
  Apart obj (prop name v ps) = Absent name obj × Absent name ps × Apart obj ps

  set_prop-Absent :
      (name : Bytes) (v : Value Int) (obj : Props Int)
      → Absent name obj
      → set_prop name v obj ≡ append_props obj (prop name v nil)
  unfolding set_prop
  set_prop-Absent name v nil h = refl
  set_prop-Absent name v (prop n w obj) h =
      rw (not_same n name h.0) (ap (prop n w) (set_prop-Absent name v obj h.1))

  Absent-append :
      (name n : Bytes) (v : Value Int) (obj : Props Int)
      → Absent name obj
      → n ≢ name
      → Absent name (append_props obj (prop n v nil))
  Absent-append name n v nil h d = (d, tt)
  Absent-append name n v (prop m w obj) h d = (h.0, Absent-append name n v obj h.1 d)

  Apart-append :
      (n : Bytes) (v : Value Int) (obj ps : Props Int)
      → Absent n ps
      → Apart obj ps
      → Apart (append_props obj (prop n v nil)) ps
  Apart-append n v obj nil a h = tt
  Apart-append n v obj (prop name w ps) a h =
      (Absent-append name n v obj h.0 (λ e. a.0 (sym e)), h.1, Apart-append n v obj ps a.1 h.2)

  pub add_all-append : (obj ps : Props Int) → Apart obj ps → add_all obj ps ≡ append_props obj ps
  unfolding add_all
  add_all-append obj nil h = sym (append_props_nil obj)
  add_all-append obj (prop name v ps) h = rw (set_prop-Absent name v obj h.0) (
      add_all-append (append_props obj (prop name v nil)) ps (Apart-append name v obj ps h.1 h.2)
      ∙ append_props_assoc obj (prop name v nil) ps)
