-- ===== src/Api/Config/Secrets.antt =====
-- The password hash and the validity of the configuration under `update_config` of nimbus-api/src/lib.rs.
use nimbusdns.Common.{
  ℕ, ◌≡◌, ◌≢◌, ◌⊎◌, refl, sym, ap, ◌∙◌, subst, inl, inr, false, Option, none, some, arith,
  Bool-cases, if◌then◌else◌, if_elim,
}
use nimbusdns.Common.Text.{Text, same, text_discrete, codes}
use nimbusdns.Config.{Config, Result, ok, err}
use nimbusdns.Config.Env.{validate}
use nimbusdns.Config.Validity.{IsValid, validate_iff}
use nimbusdns.Api.Config.{
  Json, object, Fields, no_fields, field, get, remove, put, or_null, is_null, json_merge,
  merge_fields, strip_section, strip_secrets_from_config, field_of, State, Response, updated,
  bad_request, internal_server_error, WriteOutcome, complete, incomplete, write_text,
  write_config_file, Serde, update_config, apply_config, accept_config, store_config,
}

get-remove :
    (j k : Text) (fs : Fields) → get j (remove k fs) ≡ (if same k j then none else get j fs)
unfolding get remove same
get-remove j k no_fields = ground arith
get-remove j k (field i v fs) =
    ground (arith, get-remove j k fs, text_discrete k j, text_discrete k i, text_discrete j i)

get-put :
    (j k : Text) (w : Json) (fs : Fields)
    → get j (put k w fs) ≡ (if same k j then some w else get j fs)
unfolding get put same
get-put j k w no_fields = ground (arith, text_discrete k j, text_discrete j k)
get-put j k w (field i v fs) =
    ground (arith, get-put j k w fs, text_discrete k j, text_discrete k i, text_discrete j i)

-- A key that the patch does not have keeps its value.
get-merge_fields :
    (k : Text) (xs ys : Fields) → get k ys ≡ none → get k (merge_fields xs ys) ≡ get k xs
unfolding get merge_fields same
get-merge_fields k xs no_fields h = refl
get-merge_fields k xs (field j v ys) h = ground (
  arith,
  h,
  get-merge_fields k (remove j xs) ys,
  get-merge_fields k (put j (json_merge (or_null (get j xs)) v) xs) ys,
  get-remove k j xs,
  get-put k j (json_merge (or_null (get j xs)) v) xs,
  text_discrete j k,
  text_discrete k j,
)

-- No key stands twice.
abbrev pub Unique : Fields → Type 0
Unique no_fields = Unit
Unique (field k v fs) = (get k fs ≡ none) × Unique fs

put-Unique : (k : Text) (w : Json) (fs : Fields) → Unique fs → Unique (put k w fs)
unfolding put get same
put-Unique k w no_fields u = (refl, tt)
put-Unique k w (field j v fs) u = elim (Bool-cases (same k j)) [
  | inl t ↦ rw t u
  | inr f ↦ rw f (ground (arith, get-put j k w fs, u.0, f), put-Unique k w fs u.1)
]

get-merge_here :
    (k : Text) (v : Json) (xs ys : Fields)
    → get k ys ≡ none
    → is_null v ≡ false
    → get k (merge_fields xs (field k v ys)) ≡ some (json_merge (or_null (get k xs)) v)
unfolding merge_fields same
get-merge_here k v xs ys h n =
    let w = json_merge (or_null (get k xs)) v in
    rw n
      (get-merge_fields k (put k w xs) ys h ∙ ground (arith, get-put k k w xs, text_discrete k k))

skipped : (k j : Text) (xs : Fields) → k ≢ j → get k (remove j xs) ≡ get k xs
unfolding same
skipped k j xs q = ground (arith, get-remove k j xs, q, text_discrete j k)

kept : (k j : Text) (w : Json) (xs : Fields) → k ≢ j → get k (put j w xs) ≡ get k xs
unfolding same
kept k j w xs q = ground (arith, get-put k j w xs, q, text_discrete j k)

get-merge_found :
    (k : Text) (v : Json) (xs ys : Fields)
    → Unique ys
    → get k ys ≡ some v
    → is_null v ≡ false
    → get k (merge_fields xs ys) ≡ some (json_merge (or_null (get k xs)) v)
unfolding get merge_fields same
get-merge_found k v xs no_fields u h n = cc
get-merge_found k v xs (field j w ys) u h n = elim (text_discrete k j) [
  | yes p ↦
      subst (λ i. get i (merge_fields xs (field j w ys)) ≡ some (json_merge (or_null (get i xs)) v))
        (sym p)
        (let e : w ≡ v = ground (arith, h, p, text_discrete k j) in
          subst
            (λ x. get j (merge_fields xs (field j w ys)) ≡ some (json_merge (or_null (get j xs)) x))
            e (get-merge_here j w xs ys u.0 (ground (arith, n, e))))
  | no q ↦
      let r : get k ys ≡ some v = ground (arith, h, q, text_discrete k j) in
      let merged = json_merge (or_null (get j xs)) w in
      if_elim (λ z. get k z ≡ some (json_merge (or_null (get k xs)) v)) (is_null w)
        (λ t.
          get-merge_found k v (remove j xs) ys u.1 r n
          ∙ ap (λ o. some (json_merge (or_null o) v)) (skipped k j xs q))
        (λ f.
          get-merge_found k v (put j merged xs) ys u.1 r n
          ∙ ap (λ o. some (json_merge (or_null o) v)) (kept k j merged xs q))
]

-- The password hash of a configuration in JSON.
unfoldable pub hash_of : Option Json → Option Json
hash_of (some (object ws)) = get (codes "password-hash") ws
hash_of _ = none

hash_of_object : (ws : Fields) → hash_of (some (object ws)) ≡ get (codes "password-hash") ws
unfolding hash_of
hash_of_object ws = refl

not_null : (fs : Fields) → is_null (object (remove (codes "password-hash") fs)) ≡ false
unfolding is_null
not_null fs = refl

-- The patch has no section `webserver`, or one that is an object.
abbrev pub IsSection : Option Json → Type 0
IsSection o = (o ≡ none) ⊎ ((ws : Fields) × (o ≡ some (object ws)))

merged_hash :
    (ws pws : Fields)
    → hash_of (some (json_merge (object ws) (object (remove (codes "password-hash") pws))))
      ≡ get (codes "password-hash") ws
unfolding hash_of json_merge
merged_hash ws pws =
    get-merge_fields (codes "password-hash") ws (remove (codes "password-hash") pws) (
      ground (
        arith,
        get-remove (codes "password-hash") (codes "password-hash") pws,
        text_discrete (codes "password-hash") (codes "password-hash"),
      ))

merge_object : (xs ys : Fields) → json_merge (object xs) (object ys) ≡ object (merge_fields xs ys)
unfolding json_merge
merge_object xs ys = refl

strip_none :
    (fs : Fields)
    → get (codes "webserver") fs ≡ none
    → strip_secrets_from_config (object fs) ≡ object fs
unfolding strip_secrets_from_config strip_section
strip_none fs n = ap (λ o. object (strip_section o fs)) n

strip_object :
    (fs ws : Fields)
    → get (codes "webserver") fs ≡ some (object ws)
    → strip_secrets_from_config (object fs)
      ≡ object (put (codes "webserver") (object (remove (codes "password-hash") ws)) fs)
unfolding strip_secrets_from_config strip_section
strip_object fs ws p = ap (λ o. object (strip_section o fs)) p

get-put_self : (k : Text) (w : Json) (fs : Fields) → get k (put k w fs) ≡ some w
unfolding same
get-put_self k w fs = ground (arith, get-put k k w fs, text_discrete k k)

field_of_object : (k : Text) (fs : Fields) → field_of k (object fs) ≡ get k fs
unfolding field_of
field_of_object k fs = refl

-- Where the section `webserver` of the patch is an object or is missing, the merged configuration has
-- the password hash that the current one has.
pub json_merge-strip_secrets_from_config :
    (xs fs ws : Fields)
    → Unique fs
    → IsSection (get (codes "webserver") fs)
    → get (codes "webserver") xs ≡ some (object ws)
    → hash_of (
        field_of
          (codes "webserver")
          (json_merge (object xs) (strip_secrets_from_config (object fs))))
      ≡ hash_of (field_of (codes "webserver") (object xs))
unfolding or_null
json_merge-strip_secrets_from_config xs fs ws u (inl n) c =
    let k = codes "webserver" in
    ap (λ b. hash_of (field_of k (json_merge (object xs) b))) (strip_none fs n)
    ∙ ap (λ m. hash_of (field_of k m)) (merge_object xs fs)
    ∙ ap hash_of (
        field_of_object k (merge_fields xs fs)
        ∙ get-merge_fields k xs fs n
        ∙ sym (field_of_object k xs))
json_merge-strip_secrets_from_config xs fs ws u (inr (pws, p)) c =
    let k = codes "webserver" in
    let patch = object (remove (codes "password-hash") pws) in
    let ys = put k patch fs in
    let found =
      get-merge_found k patch xs ys (put-Unique k patch fs u) (get-put_self k patch fs)
        (not_null pws) in
    ap (λ b. hash_of (field_of k (json_merge (object xs) b))) (strip_object fs pws p)
    ∙ ap (λ m. hash_of (field_of k m)) (merge_object xs ys)
    ∙ ap hash_of (field_of_object k (merge_fields xs ys) ∙ found)
    ∙ ap (λ o. hash_of (some (json_merge (or_null o) patch))) c
    ∙ merged_hash ws pws
    ∙ sym (ap hash_of (field_of_object k xs ∙ c) ∙ hash_of_object ws)

-- A request for `new`, if there is one, is carried out; or it is refused and changes nothing; or its
-- file could not be written, and only the file may have changed.
abbrev pub IsUpdate : Serde → Option Config → State → State × Response → Type 0
IsUpdate serde new s (t, r) =
    ((r ≡ updated) × ((new ≡ some t.config) × (serde.to_string_pretty t.config ≡ some t.file)))
    ⊎ (((r ≡ bad_request) × (t ≡ s))
        ⊎ ((r ≡ internal_server_error) × (t ≡ record s { file = t.file })))

stored :
    (serde : Serde) (body : Json) (new : Config) (outcome : WriteOutcome) (now : ℕ) (s : State)
    (o : Option Text)
    → IsValid new
    → serde.to_string_pretty new ≡ o
    → IsValid s.config
    → IsValid (store_config body new now s (write_text outcome o s.file)).0.config
      × IsUpdate serde (some new) s (store_config body new now s (write_text outcome o s.file))
unfolding store_config write_text
stored serde body new outcome now s none h e v = (v, inr (inr (refl, refl)))
stored serde body new complete now s (some toml_str) h e v = (h, inl (refl, (refl, e)))
stored serde body new (incomplete left) now s (some toml_str) h e v = (v, inr (inr (refl, refl)))

accepted :
    (serde : Serde) (body : Json) (new : Config) (outcome : WriteOutcome) (now : ℕ) (s : State)
    (r : Result (Unit {0}))
    → validate new ≡ r
    → IsValid s.config
    → IsValid (accept_config serde body new outcome now s r).0.config
      × IsUpdate serde (some new) s (accept_config serde body new outcome now s r)
unfolding accept_config write_config_file
accepted serde body new outcome now s (err e) h v = (v, inr (inl (refl, refl)))
accepted serde body new outcome now s (ok _) h v =
    stored serde body new outcome now s (serde.to_string_pretty new) ((validate_iff new).0 h) refl v

applied :
    (serde : Serde) (body : Json) (new : Option Config) (outcome : WriteOutcome) (now : ℕ)
    (s : State)
    → IsValid s.config
    → IsValid (apply_config serde body new outcome now s).0.config
      × IsUpdate serde new s (apply_config serde body new outcome now s)
unfolding apply_config
applied serde body none outcome now s v = (v, inr (inl (refl, refl)))
applied serde body (some new) outcome now s v =
    accepted serde body new outcome now s (validate new) refl v

-- Whatever a request holds, the configuration of the server is valid afterwards if it was before. After
-- a success it is the one that the merged JSON reads as, and the file is its TOML; a request that is
-- refused leaves all as it was, and one that fails in the writing leaves all but the file.
pub update_config-IsValid :
    (serde : Serde) (request : Json) (outcome : WriteOutcome) (now : ℕ) (s : State)
    → IsValid s.config
    → IsValid (update_config serde request outcome now s).0.config
      × IsUpdate serde
          (serde.from_value
            (json_merge (serde.to_value s.config) (strip_secrets_from_config request)))
          s
          (update_config serde request outcome now s)
unfolding update_config
update_config-IsValid serde request outcome now s v =
    let body = strip_secrets_from_config request in
    applied serde body (serde.from_value (json_merge (serde.to_value s.config) body)) outcome now s
      v
