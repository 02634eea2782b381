-- ===== src/Catalog/Composition.antt =====
-- `Compose` against its specification: the documents one behind the other.
use bootup.Common.{
  >>-eq-ok, >>=-eq-ok, All, Distinct, Distinct-Fresh, Fresh, Fresh-Distinct, Fresh-append, List,
  Result, String, [], ap, append-nil, append_assoc, arith, eqb→eq, negsuc, not, ok, pos, push_all,
  refl, refuse_if, sym, true, ℤ, ◌++◌, ◌↔◌, ◌∙◌, ◌∷◌, ◌≡◌,
}
use bootup.Provider.{Target}
use bootup.Catalog.{
  CatalogError, Document, compose, compose_entries, compose_from, document_of, is_schema_version,
  unsupported_version,
}

abbrev pub target_ids : List Target → List String
target_ids [] = []
target_ids (t ∷ ts) = t.id ∷ target_ids ts

abbrev pub all_entries : List Document → List Target
all_entries [] = []
all_entries (doc ∷ docs) = doc.entries ++ all_entries docs

abbrev pub IsCurrent : Document → Type 0
IsCurrent doc = doc.schema_version ≡ pos 1

pub target_ids-append :
    (xs ys : List Target) → target_ids (xs ++ ys) ≡ target_ids xs ++ target_ids ys
target_ids-append [] ys = refl
target_ids-append (x ∷ xs) ys = ap (λ r. x.id ∷ r) (target_ids-append xs ys)

pub is_schema_version_iff : (v : ℤ) → (is_schema_version v ≡ true) ↔ (v ≡ pos 1)
unfolding is_schema_version
is_schema_version_iff (pos n) = (λ h. ap pos (eqb→eq n 1 h), λ h. ground arith)
is_schema_version_iff (negsuc n) = (λ h. cc, λ h. cc)

entries_sound :
    (seen : List String) (entries ts : List Target) (r : List String × List Target)
    → compose_entries seen entries ts ≡ ok r
    → Fresh seen (target_ids ts) × (r ≡ (push_all (target_ids ts) seen, entries ++ ts))
unfolding compose_entries
entries_sound seen entries [] r h = (tt, rw append-nil (ground arith))
entries_sound seen entries (t ∷ ts) r h =
    let (fresh, same) = entries_sound (t.id ∷ seen) (entries ++ t ∷ []) ts r (ground arith) in
    (
      (ground arith, fresh),
      same
          ∙ ap (λ e. (push_all (target_ids ts) (t.id ∷ seen), e))
              (append_assoc entries (t ∷ []) ts),
    )

entries_complete :
    (seen : List String) (entries ts : List Target)
    → Fresh seen (target_ids ts)
    → compose_entries seen entries ts ≡ ok (push_all (target_ids ts) seen, entries ++ ts)
unfolding compose_entries
entries_complete seen entries [] h = rw append-nil
entries_complete seen entries (t ∷ ts) h =
    rw (h.0, ← append_assoc entries (t ∷ []) ts)
      (entries_complete (t.id ∷ seen) (entries ++ t ∷ []) ts h.1)

from_sound :
    (seen : List String) (entries : List Target) (docs : List Document) (r : List Target)
    → compose_from seen entries docs ≡ ok r
    → All IsCurrent docs
      × Fresh seen (target_ids (all_entries docs))
      × (r ≡ entries ++ all_entries docs)
unfolding compose_from
from_sound seen entries [] r h = (tt, tt, rw append-nil (ground arith))
from_sound seen entries (doc ∷ docs) r h =
    let ids = target_ids doc.entries in
    let (_, current, rest) =
      >>-eq-ok (refuse_if (not (is_schema_version doc.schema_version)) unsupported_version) _ h in
    let (step, composed, last) = >>=-eq-ok (compose_entries seen entries doc.entries) _ rest in
    let (fresh, same) = entries_sound seen entries doc.entries step composed in
    let (currents, freshes, whole) =
      from_sound (push_all ids seen) (entries ++ doc.entries) docs r
        (ap (λ (p : List String × List Target). compose_from p.0 p.1 docs) (sym same) ∙ last) in
    (
      ((is_schema_version_iff doc.schema_version).0 (ground arith), currents),
      rw (target_ids-append doc.entries (all_entries docs))
          ((Fresh-append seen ids (target_ids (all_entries docs))).1 (fresh, freshes)),
      whole ∙ append_assoc entries doc.entries (all_entries docs),
    )

from_complete :
    (seen : List String) (entries : List Target) (docs : List Document)
    → All IsCurrent docs
    → Fresh seen (target_ids (all_entries docs))
    → compose_from seen entries docs ≡ ok (entries ++ all_entries docs)
unfolding compose_from
from_complete seen entries [] c h = rw append-nil
from_complete seen entries (doc ∷ docs) c h =
    let ids = target_ids doc.entries in
    let (fresh, freshes) =
      (Fresh-append seen ids (target_ids (all_entries docs))).0
        (rw (target_ids-append doc.entries (all_entries docs)) at h) in
    rw
      (
        (is_schema_version_iff doc.schema_version).1 c.0,
        entries_complete seen entries doc.entries fresh,
        ← append_assoc entries doc.entries (all_entries docs),
      )
      (from_complete (push_all ids seen) (entries ++ doc.entries) docs c.1 freshes)

pub ok_inj : {a b : Document} → ◌≡◌ {A = Result CatalogError Document} (ok a) (ok b) → a ≡ b
ok_inj h = cc

-- Documents compose exactly if each has the current version and no target ID stands twice in
-- them; the result is the targets of all of them, in order, with no dates.
pub compose_iff :
    (docs : List Document) (doc : Document)
    → (compose docs ≡ ok doc) ↔ (
        All IsCurrent docs
        × Distinct (target_ids (all_entries docs))
        × (doc ≡ document_of (all_entries docs)))
unfolding compose
compose_iff docs doc = (
  λ h.
      let (r, composed, same) = >>=-eq-ok (compose_from [] [] docs) _ h in
      let (current, fresh, whole) = from_sound [] [] docs r composed in
      (current, Fresh-Distinct [] _ fresh, sym (ok_inj same) ∙ ap document_of whole),
  λ (current, distinct, same).
      rw (from_complete [] [] docs current (Distinct-Fresh _ distinct)) (ap ok (sym same)),
)
