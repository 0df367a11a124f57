-- ===== src/Objects/Key.antt =====
-- The key of a table in the maps of go/connection_getobjects.go and go/connection_statistics.go:
-- `catalogName + "\x00" + tableName`.
use adbc_driver_mariadb.Base.{◌≡◌, ◌≢◌, ap, sym, ◌∙◌, [], ◌∷◌, ◌++◌, none, some-injective}
use adbc_driver_mariadb.Base.Text.{Bytes, split_at_byte, split_at_byte-append}

abbrev pub table_key : Bytes → Bytes → Bytes
table_key catalog table = catalog ++ (0 ∷ table)

-- A name without the byte zero, as every name that a server has.
abbrev pub NoZero : Bytes → Type 0
NoZero s = split_at_byte 0 s ≡ none

tail : Bytes → Bytes
tail [] = []
tail (c ∷ s) = s

-- The key gives the catalog and the table back.
pub table_key-injective :
    (c c' t t' : Bytes)
    → NoZero c
    → NoZero c'
    → table_key c t ≡ table_key c' t'
    → (c ≡ c') × (t ≡ t')
unfolding tail
table_key-injective c c' t t' h h' e =
    let parts : (c, 0 ∷ t) ≡ (c', 0 ∷ t') =
      some-injective (c, 0 ∷ t) (c', 0 ∷ t')
        (sym (split_at_byte-append 0 c t h)
          ∙ (ap (split_at_byte 0) e ∙ split_at_byte-append 0 c' t' h')) in
    (ap (λ (p : Bytes × Bytes). p.0) parts, ap (λ (p : Bytes × Bytes). tail p.1) parts)

pub table_key-no_nil : (c t : Bytes) → table_key c t ≢ []
table_key-no_nil [] t e = cc
table_key-no_nil (d ∷ c) t e = cc
