-- ===== src/Auth/Published.antt =====
-- Where the keys that gateway/auth.py verifies tokens with come from.
use mcp_gateway.Base.{
  ℕ, String, ◌≡◌, refl, Option, none, some, List, [], ◌∷◌, arith, ◌⊎◌, inl, inr, Any, Bool-cases,
  Option-cases, ◌==◌, ==→eq,
}
use mcp_gateway.Base.Dict.{lookup, lookup-insert}
use mcp_gateway.Base.{string_eq}
use mcp_gateway.Base.Json.{Json, obj, Fields, Items, json_get, as_str, as_list, to_list}
use mcp_gateway.Effect.{ok}
use mcp_gateway.Auth.{Oidc, Keys, keys_of, add_key, refreshed, fetched, get_key}

module _ (o : Oidc) where
  -- An entry of a key set that is this key under this name.
  abbrev pub IsEntry : String → Fields → Json → Type 0
  IsEntry key_id key item = (item ≡ obj key) × (as_str (json_get "kid" key) ≡ some key_id)

  -- The key has the name among the cached keys, or in the document that the provider answers.
  pub data IsPublished (tick : ℕ) (keys : Keys) (key_id : String) (key : Fields) : Type 0 where
    cached : lookup key_id keys ≡ some key → IsPublished tick keys key_id key
    answered :
        (document : Fields) (items : Items)
        → o.key_set tick ≡ some (obj document)
        → as_list (json_get "keys" document) ≡ some items
        → Any (IsEntry key_id key) (to_list items)
        → IsPublished tick keys key_id key

  add_key-IsEntry :
      (key_id : String) (key item : Fields) (k : Option String) (d : Keys)
      → as_str (json_get "kid" item) ≡ k
      → lookup key_id (add_key (obj item) d) ≡ some key
      → IsEntry key_id key (obj item) ⊎ (lookup key_id d ≡ some key)
  add_key-IsEntry key_id key item none d e h = inr (ground (arith, e, h))
  add_key-IsEntry key_id key item (some k) d e h = elim (Bool-cases (key_id == k)) [
    | inl same ↦
        let i : item ≡ key = ground (arith, e, h, same, lookup-insert key_id k item d) in
        inl (cc i, cc (i, e, ==→eq key_id k same))
    | inr differ ↦ inr (ground (arith, e, h, differ, lookup-insert key_id k item d))
  ]

  item-IsEntry :
      (key_id : String) (key : Fields) (item : Json) (d : Keys)
      → lookup key_id (add_key item d) ≡ some key
      → IsEntry key_id key item ⊎ (lookup key_id d ≡ some key)
  item-IsEntry key_id key (obj item) d h = add_key-IsEntry key_id key item _ d refl h
  item-IsEntry key_id key item d h = inr h

  keys_of-IsEntry :
      (key_id : String) (key : Fields) (items : List Json) (d : Keys)
      → lookup key_id (keys_of items d) ≡ some key
      → Any (IsEntry key_id key) items ⊎ (lookup key_id d ≡ some key)
  unfolding keys_of
  keys_of-IsEntry key_id key [] d h = inr h
  keys_of-IsEntry key_id key (item ∷ items) d h =
      elim (keys_of-IsEntry key_id key items (add_key item d) h) [
        | inl later ↦ inl (inr later)
        | inr e ↦ elim (item-IsEntry key_id key item d e) [ inl i ↦ inl (inl i) | inr f ↦ inr f ]
      ]

  refreshed_ok :
      (key_id : String) (key : Fields) (items : List Json)
      → (refreshed o key_id (keys_of items [])).0 ≡ ok key
      → Any (IsEntry key_id key) items
  unfolding lookup
  refreshed_ok key_id key items h = elim (keys_of-IsEntry key_id key items [] (ground (arith, h))) [
    | inl e ↦ e
    | inr e ↦ absurd (cc e)
  ]

  listed_ok :
      (tick : ℕ) (key_id : String) (keys : Keys) (key document : Fields) (items : Option Items)
      → o.key_set tick ≡ some (obj document)
      → as_list (json_get "keys" document) ≡ items
      → (fetched o key_id (some (obj document)) keys).0 ≡ ok key
      → IsPublished tick keys key_id key
  listed_ok tick key_id keys key document none e l h = absurd (ground (arith, l, h))
  listed_ok tick key_id keys key document (some items) e l h =
      answered document items e l (refreshed_ok key_id key (to_list items) (ground (arith, l, h)))

  fetched_ok :
      (tick : ℕ) (key_id : String) (keys : Keys) (key : Fields) (document : Option Json)
      → o.key_set tick ≡ document
      → (fetched o key_id document keys).0 ≡ ok key
      → IsPublished tick keys key_id key
  fetched_ok tick key_id keys key none e h = absurd (cc h)
  fetched_ok tick key_id keys key (some (obj document)) e h =
      listed_ok tick key_id keys key document _ e refl h
  fetched_ok tick key_id keys key (some document) e h = absurd (cc h)

  pub get_key-IsPublished :
      (tick : ℕ) (key_id : String) (keys : Keys) (key : Fields)
      → (get_key o tick key_id keys).0 ≡ ok key
      → IsPublished tick keys key_id key
  unfolding get_key
  get_key-IsPublished tick key_id keys key h = elim (Option-cases (lookup key_id keys)) [
    | inl missing ↦ fetched_ok tick key_id keys key _ refl (ground (arith, missing, h))
    | inr (found, e) ↦ cached (ground (arith, e, h))
  ]
