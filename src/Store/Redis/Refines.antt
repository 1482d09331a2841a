-- ===== src/Store/Redis/Refines.antt =====
-- An update of `RedisStateStore` is an update of `InMemoryStateStore`, made at one moment between
-- what the other clients write.
use mathlib.Core.Path.{subst}
use mcp_gateway.Base.{
  String, ◌≡◌, refl, sym, ◌∙◌, ap, Option, none, some, List, [], ◌∷◌, arith, All,
}
use mcp_gateway.Base.{string_eq}
use mcp_gateway.Base.Dict.{lookup, insert, lookup-insert}
use mcp_gateway.Models.{ToolCallRecord}
use mcp_gateway.Errors.{other}
use mcp_gateway.Effect.{Result, ok, raise, cut_off}
use mcp_gateway.Store.Memory
use mcp_gateway.Store.Memory.{MemoryStore}
use mcp_gateway.Store.Redis.{Server, Codec, Round, unreachable, quiet, touched, broken, lost}
use mcp_gateway.Store.Redis.{put_text, proposed, commit, update}

-- The text of a record that the updater returns is read back as that record: pydantic's round trip.
abbrev pub ReadsBack : Codec → (ToolCallRecord → Result ToolCallRecord) → Type 0
ReadsBack c updater = (r r' : ToolCallRecord) → updater r ≡ ok r' → c.load (c.dump r') ≡ some r'

abbrev pub load_found : Codec → Option String → Option ToolCallRecord
load_found c none = none
load_found c (some text) = c.load text

-- The record under a key of the server.
abbrev pub stored : Codec → String → Server → Option ToolCallRecord
stored c k s = load_found c (lookup k s.texts)

-- The store in memory holds the records whose texts the server holds.
abbrev pub Represents : Codec → Server → MemoryStore → Type 0
Represents c s m = (k : String) → stored c k s ≡ lookup k m.calls

-- Redis executes a watched transaction only if the key has kept its text.
abbrev pub KeepsWatch : String → Round → Type 0
KeepsWatch k (quiet others) = (s : Server) → lookup k (others s).texts ≡ lookup k s.texts
KeepsWatch k (lost others) = (s : Server) → lookup k (others s).texts ≡ lookup k s.texts
KeepsWatch k _ = Unit

-- The server's state, by the other clients' writes alone, when the transaction is executed.
abbrev pub at_commit : List Round → Server → Server
at_commit [] s = s
at_commit (unreachable ∷ rounds) s = s
at_commit (quiet others ∷ rounds) s = others s
at_commit (touched others ∷ rounds) s = at_commit rounds (others s)
at_commit (broken others ∷ rounds) s = others s
at_commit (lost others ∷ rounds) s = others s

module _ (c : Codec) (k : String) (updater : ToolCallRecord → Result ToolCallRecord)
    (reads_back : ReadsBack c updater) where
  proposed_ok :
      (o : Option String) (r' : ToolCallRecord)
      → proposed c updater o ≡ ok r'
      → (r : ToolCallRecord) × (load_found c o ≡ some r) × (updater r ≡ ok r')
  proposed_ok none r' h = absurd (cc h)
  proposed_ok (some text) r' h = go (c.load text) refl h
    where
      go :
          (l : Option ToolCallRecord)
          → c.load text ≡ l
          → (elim l [ none ↦ raise (other "ValidationError") | some r ↦ updater r ]) ≡ ok r'
          → (r : ToolCallRecord) × (c.load text ≡ some r) × (updater r ≡ ok r')
      go none e g = absurd (cc g)
      go (some r) e g = (r, e, g)

  put_text-Represents :
      (r : ToolCallRecord) (t : Server) (m : MemoryStore)
      → c.load (c.dump r) ≡ some r
      → Represents c t m
      → Represents c (put_text c k r t) (record m { calls = insert k r m.calls })
  put_text-Represents r t m codec h j =
      ground (arith, lookup-insert j k (c.dump r) t.texts, lookup-insert j k r m.calls, codec, h j)

  -- A transaction that is executed does to the store in memory what `update` does there.
  committed :
      (s t s' : Server) (m : MemoryStore) (r' : ToolCallRecord)
      → lookup k t.texts ≡ lookup k s.texts
      → proposed c updater (lookup k s.texts) ≡ ok r'
      → put_text c k r' t ≡ s'
      → Represents c t m
      → ((Memory.update k updater m).0 ≡ ok tt) × Represents c s' (Memory.update k updater m).1
  unfolding Memory.update
  committed s t s' m r' same p e h =
      let (r, found, updated) = proposed_ok (lookup k s.texts) r' p in
      let here : lookup k m.calls ≡ some r = sym (h k) ∙ (ap (load_found c) same ∙ found) in
      rw (here, updated)
        (
          refl,
          subst (λ x. Represents c x (record m { calls = insert k r' m.calls })) e
              (put_text-Represents r' t m (reads_back r r' updated) h),
        )

  committed_round :
      (again : Server → Result (Unit {0}) × Server) (round : Round) (rounds : List Round)
      (s s' : Server) (m : MemoryStore) (p : Result ToolCallRecord)
      → proposed c updater (lookup k s.texts) ≡ p
      → KeepsWatch k round
      → commit c (update c rounds k updater) k round p s ≡ (ok tt, s')
      → Represents c (at_commit (round ∷ rounds) s) m
      → ((t : Server)
          → update c rounds k updater t ≡ (ok tt, s')
          → Represents c (at_commit rounds t) m
          → ((Memory.update k updater m).0 ≡ ok tt) × Represents c s' (Memory.update k updater m).1)
      → ((Memory.update k updater m).0 ≡ ok tt) × Represents c s' (Memory.update k updater m).1
  committed_round again (quiet others) rounds s s' m (ok r') e w h rep ih =
      committed s (others s) s' m r' (w s) e (ap (λ (x : Result (Unit {0}) × Server). x.1) h) rep
  committed_round again (touched others) rounds s s' m (ok r') e w h rep ih = ih (others s) h rep
  committed_round again (broken others) rounds s s' m (ok r') e w h rep ih = absurd (cc h)
  committed_round again (lost others) rounds s s' m (ok r') e w h rep ih = absurd (cc h)
  committed_round again unreachable rounds s s' m p e w h rep ih = absurd (cc h)
  committed_round again _ rounds s s' m (raise x) e w h rep ih = absurd (cc h)
  committed_round again _ rounds s s' m cut_off e w h rep ih = absurd (cc h)

  -- Where the other clients keep the watched key in the rounds that execute a transaction, where the
  -- records that the updater returns are read back from their texts, and where an update of
  -- `RedisStateStore` returns: the same update of a store in memory that represents the server as
  -- the other clients' writes had left it when the transaction was executed returns too, and the two
  -- stores represent the same records after it. So none of those writes is lost.
  pub update-refines :
      (rounds : List Round) (s s' : Server) (m : MemoryStore)
      → All (KeepsWatch k) rounds
      → update c rounds k updater s ≡ (ok tt, s')
      → Represents c (at_commit rounds s) m
      → ((Memory.update k updater m).0 ≡ ok tt) × Represents c s' (Memory.update k updater m).1
  unfolding update
  update-refines [] s s' m w h rep = absurd (cc h)
  update-refines (round ∷ rounds) s s' m w h rep =
      committed_round (update c rounds k updater) round rounds s s' m _ refl w.0 h rep
        λ t. update-refines rounds t s' m w.1
