-- ===== src/Provider/Registry/Order.antt =====
-- Go ranges over the map of providers in any order; what the registry returns does not depend on
-- it.
use mathlib.Core.List.{Permᴰ}
use bootup.Text.Order.Laws.{sort_texts-Permᴰ}
use bootup.Provider.Source.{UrlParser}
use bootup.Provider.Registry.{
  Registry, discover_from, discover_targets, discovery_families, families_of, sorted_ids, targets,
  targets_of,
}
use bootup.Common.{List, String, [], arith, keys, lookup, refl, ◌∷◌, ◌≡◌}

-- The same map, perhaps in another order.
pub record IsSameMap (r r' : Registry) : Type 0 where
  pub order : Permᴰ (keys r.providers) (keys r'.providers)
  pub values : (id : String) → lookup id r.providers ≡ lookup id r'.providers

module _ (r r' : Registry) (same : IsSameMap r r') where
  sorted_ids-eq : sorted_ids r ≡ sorted_ids r'
  unfolding sorted_ids
  sorted_ids-eq = sort_texts-Permᴰ (keys r.providers) (keys r'.providers) same.order

  families_of-eq : (ids : List String) → families_of r ids ≡ families_of r' ids
  unfolding families_of
  families_of-eq [] = refl
  families_of-eq (id ∷ ids) = ground (arith, same.values id, families_of-eq ids)

  module _ (parse_url : UrlParser) where
    targets_of-eq : (ids : List String) → targets_of parse_url r ids ≡ targets_of parse_url r' ids
    unfolding targets_of
    targets_of-eq [] = refl
    targets_of-eq (id ∷ ids) = rw (same.values id, targets_of-eq ids)

    discover_from-eq :
        (family_id : String) (ids : List String)
        → discover_from parse_url r family_id ids ≡ discover_from parse_url r' family_id ids
    unfolding discover_from
    discover_from-eq family_id [] = refl
    discover_from-eq family_id (id ∷ ids) =
        ground (arith, same.values id, discover_from-eq family_id ids)

    -- Two registries that hold the same providers, in whatever order the map is ranged over, list
    -- the same targets and the same discovery families, and discover the same targets.
    pub targets-IsSameMap :
        (targets parse_url r ≡ targets parse_url r')
        × (discovery_families r ≡ discovery_families r')
        × ((family_id : String)
            → discover_targets parse_url r family_id ≡ discover_targets parse_url r' family_id)
    unfolding targets discovery_families discover_targets
    targets-IsSameMap = (
      rw sorted_ids-eq (targets_of-eq (sorted_ids r')),
      rw sorted_ids-eq (families_of-eq (sorted_ids r')),
      λ family_id. rw sorted_ids-eq (discover_from-eq family_id (sorted_ids r')),
    )
