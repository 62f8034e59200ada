-- ===== src/Pipeline/Filter.antt =====
-- app/pipeline/filter.py: rows that the model marked as no requirement are set aside with a reason.
use rfp_shred.Prelude.{
  keep-onto, map-append, Bool, List, String, [], append-nil, arith, if◌then◌else◌, keep, map, not,
  sym, ◌++◌, ◌∷◌, ◌≡◌,
}
use rfp_shred.Pipeline.Items.{MinedItem}

-- `FilterOutcome`. The reason of every filtered item is the one constant of the file.
pub record FilterOutcome : Type 0 where
  pub requirements : List MinedItem
  pub filtered : List (MinedItem × String)

abbrev pub filter_reason : String
filter_reason = "model marked is_requirement=false (boilerplate/TOC/narrative)"

-- One round of the loop.
abbrev pub route : FilterOutcome → MinedItem → FilterOutcome
route out item =
    if item.is_requirement
    then record out { requirements = out.requirements ++ item ∷ [] }
    else record out { filtered = out.filtered ++ (item, filter_reason) ∷ [] }

unfoldable pub route_all : FilterOutcome → List MinedItem → FilterOutcome
route_all out [] = out
route_all out (item ∷ items) = route_all (route out item) items

unfoldable pub split_requirements : List MinedItem → FilterOutcome
unfolding route_all
split_requirements items = route_all (record { requirements = []; filtered = [] }) items

abbrev pub binding : MinedItem → Bool
binding item = item.is_requirement

abbrev pub noise : MinedItem → Bool
noise item = not item.is_requirement

-- What `route_all` adds to an outcome.
abbrev Adds : FilterOutcome → List MinedItem → FilterOutcome → Type 0
Adds out items final =
    (final.requirements ≡ out.requirements ++ keep binding items)
    × (map (λ (f : MinedItem × String). f.0) final.filtered
        ≡ map (λ (f : MinedItem × String). f.0) out.filtered ++ keep noise items)

abbrev item_of : MinedItem × String → MinedItem
item_of f = f.0

requirements-route :
    (out : FilterOutcome) (item : MinedItem)
    → (route out item).requirements ≡ out.requirements ++ keep binding (item ∷ [])
requirements-route out item = ground (arith, append-nil out.requirements)

filtered-route :
    (out : FilterOutcome) (item : MinedItem)
    → map item_of (route out item).filtered ≡ map item_of out.filtered ++ keep noise (item ∷ [])
filtered-route out item = ground (
  arith,
  append-nil (map item_of out.filtered),
  map-append item_of out.filtered ((item, filter_reason) ∷ []),
)

route_all-Adds :
    (items : List MinedItem) (out : FilterOutcome) → Adds out items (route_all out items)
unfolding route_all
route_all-Adds [] out = (sym (append-nil _), sym (append-nil _))
route_all-Adds (item ∷ items) out =
    let (kept, dropped) = route_all-Adds items (route out item) in
    (
      keep-onto binding item items _ _ _ kept (requirements-route out item),
      keep-onto noise item items _ _ _ dropped (filtered-route out item),
    )

-- The filter loses nothing and reorders nothing: the requirements are the items marked as such, and
-- the filtered lines hold the others, each in the order of the model's output.
split_requirements-partition :
    (items : List MinedItem)
    → ((split_requirements items).requirements ≡ keep binding items)
      × (map (λ (f : MinedItem × String). f.0) (split_requirements items).filtered
          ≡ keep noise items)
unfolding split_requirements
split_requirements-partition items = route_all-Adds items _
