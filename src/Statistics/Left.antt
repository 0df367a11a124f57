-- ===== src/Statistics/Left.antt =====
-- The lists and the maps of the catalogs after one step of the loops of go/connection_statistics.go.
use adbc_driver_mariadb.Base.{
  Bool, true, false, ◌||◌, ◌≡◌, refl, ap, sym, ◌∙◌, List, [], ◌∷◌, ◌++◌, append-nil, Option, none,
  some, if◌then◌else◌, Bool-cases, inl, inr,
}
use adbc_driver_mariadb.Base.Text.{Bytes, equal, equal_iff}
use adbc_driver_mariadb.Base.Dict.{Dict, lookup, store, lookup-store, lookup-store_self}
use adbc_driver_mariadb.Statistics.Rows.{Statistic, Collected, list_of, enter_if_new, append_at}

abbrev pub is_some {ℓ} : {A : Type ℓ} → Option A → Bool
is_some none = false
is_some (some a) = true

abbrev pub at_schema : Option (Dict (List Statistic)) → List Statistic
at_schema none = []
at_schema (some schemas) = list_of (lookup [] schemas)

-- `statsByCatalog[catalog][""]`, and whether the catalog has a map.
abbrev pub stats_at : Bytes → Collected → List Statistic
stats_at catalog m = at_schema (lookup catalog m.stats_by_catalog)

abbrev pub has : Bytes → Collected → Bool
has catalog m = is_some (lookup catalog m.stats_by_catalog)

abbrev pub append_if : Bool → List Statistic → List Statistic
append_if b more = if b then more else []

-- The two at the catalog's new map, where that is the one that is asked for.
at_schema-if :
    (b : Bool) (more : List Statistic) (schemas : Dict (List Statistic))
    (o : Option (Dict (List Statistic)))
    → (b ≡ true → o ≡ some schemas)
    → at_schema (if b then some (store [] (list_of (lookup [] schemas) ++ more) schemas) else o)
      ≡ at_schema o ++ append_if b more
at_schema-if true more schemas o h =
    ap list_of (lookup-store_self [] (list_of (lookup [] schemas) ++ more) schemas)
    ∙ ap (λ o. at_schema o ++ more) (sym (h refl))
at_schema-if false more schemas o h = sym (append-nil (at_schema o))

pub is_some-if :
    {A : Type 0} (b : Bool) (old new : A) (o : Option A)
    → (b ≡ true → o ≡ some old)
    → is_some (if b then some new else o) ≡ is_some o
is_some-if true old new o h = ap is_some (sym (h refl))
is_some-if false old new o h = refl

pub is_some-if_new :
    {A : Type 0} (b : Bool) (new : A) (o : Option A)
    → is_some (if b then some new else o) ≡ (b || is_some o)
is_some-if_new true new o = refl
is_some-if_new false new o = refl

pub lookup-equal :
    (c d : Bytes) {V : Type 0} (m : Dict V) {o : Option V}
    → lookup c m ≡ o
    → equal c d ≡ true
    → lookup d m ≡ o
lookup-equal c d m e h = ap (λ k. lookup k m) (sym ((equal_iff c d).0 h)) ∙ e

-- What a step leaves: the list of each catalog with `more` behind, and which catalogs have a map.
pub record Left (m m' : Collected) (more : Bytes → List Statistic) (new : Bytes → Bool)
    : Type 0 where
  pub stats : (d : Bytes) → stats_at d m' ≡ stats_at d m ++ more d
  pub maps : (d : Bytes) → has d m' ≡ (new d || has d m)

pub append_at-Left :
    (catalog : Bytes) (more : List Statistic) (o : Option (Dict (List Statistic))) (m : Collected)
    → lookup catalog m.stats_by_catalog ≡ o
    → is_some o ≡ true
    → (m' : Collected) × (append_at catalog more o m ≡ some m')
      × Left m m' (λ d. append_if (equal catalog d) more) (λ d. false)
      × (m'.known_tables ≡ m.known_tables)
append_at-Left catalog more none m e h = cc
append_at-Left catalog more (some schemas) m e h =
    let schemas' = store [] (list_of (lookup [] schemas) ++ more) schemas in
    (
      _,
      refl,
      record {
        stats = λ d.
            ap at_schema (lookup-store d catalog schemas' m.stats_by_catalog)
            ∙ at_schema-if (equal catalog d) more schemas (lookup d m.stats_by_catalog)
                (lookup-equal catalog d m.stats_by_catalog e);
        maps = λ d.
            ap is_some (lookup-store d catalog schemas' m.stats_by_catalog)
            ∙ is_some-if (equal catalog d) schemas schemas' (lookup d m.stats_by_catalog)
                (lookup-equal catalog d m.stats_by_catalog e);
      },
      refl,
    )

at_schema-if_new :
    (b : Bool) (o : Option (Dict (List Statistic)))
    → (b ≡ true → o ≡ none)
    → at_schema (if b then some (([], []) ∷ []) else o) ≡ at_schema o
unfolding lookup equal
at_schema-if_new true o h = ap at_schema (sym (h refl))
at_schema-if_new false o h = refl

entered-has :
    (c d : Bytes) (m : Collected) {schemas : Dict (List Statistic)}
    → lookup c m.stats_by_catalog ≡ some schemas
    → has d m ≡ (equal c d || has d m)
entered-has c d m e = elim (Bool-cases (equal c d)) [
  | inl h ↦ rw (lookup-equal c d m.stats_by_catalog e h) (rw h refl)
  | inr h ↦ rw h refl
]

pub enter_if_new-Left :
    (catalog : Bytes) (o : Option (Dict (List Statistic))) (m : Collected)
    → lookup catalog m.stats_by_catalog ≡ o
    → Left m (enter_if_new catalog o m) (λ d. []) (λ d. equal catalog d)
      × ((enter_if_new catalog o m).known_tables ≡ m.known_tables)
enter_if_new-Left catalog (some schemas) m e = (
  record { stats = λ d. sym (append-nil (stats_at d m)); maps = λ d. entered-has catalog d m e },
  refl,
)
enter_if_new-Left catalog none m e = (
  record {
    stats = λ d.
        ap at_schema (lookup-store d catalog (([], []) ∷ []) m.stats_by_catalog)
        ∙ at_schema-if_new (equal catalog d) (lookup d m.stats_by_catalog)
            (lookup-equal catalog d m.stats_by_catalog e)
        ∙ sym (append-nil (stats_at d m));
    maps = λ d.
        ap is_some (lookup-store d catalog (([], []) ∷ []) m.stats_by_catalog)
        ∙ is_some-if_new (equal catalog d) (([], []) ∷ []) (lookup d m.stats_by_catalog);
  },
  refl,
)
