-- ===== src/Memory/Cache.antt =====
-- The history cache is invisible: what `history` returns is what the query would count now.
use arbiter_ai.Base.{
  ◌≤◌, String, ◌≡◌, refl, Bool, true, false, some, List, [], ◌∷◌, ◌++◌, ◌==◌, eq_iff, Option-cases,
  Bool-cases, inl, inr, All, eqb, length, tally-append, leb, if◌then◌else◌, arith,
}
use arbiter_ai.Values.{Value}
use arbiter_ai.Schema.{Verdict, decision_value}
use arbiter_ai.Memory.{
  Memory, SignatureHistory, VerdictRow, HistoryCache, counts, cached, count_verdict, count_cached,
  refresh, read_cached, history, verdict_row, record_one, record_all, record_verdict,
  label_verdicts, other_commit, signatures, max_cached,
}

-- every cached count is that of the rows
abbrev pub Agrees : List VerdictRow → HistoryCache → Type 0
Agrees rows = All (λ e. e.1 ≡ counts e.0 rows)

pub record IsCoherent {F : Type 0} (m : Memory F) : Type 0 where
  pub not_ahead : m.seen_version ≤ m.data_version
  pub agrees : m.seen_version ≡ m.data_version → Agrees m.verdicts m.cache

cached-Agrees :
    (rows : List VerdictRow) (c : HistoryCache) (s : String) (h : SignatureHistory)
    → Agrees rows c
    → cached s c ≡ some h
    → h ≡ counts s rows
unfolding cached
cached-Agrees rows [] s h a e = absurd (cc)
cached-Agrees rows ((k, g) ∷ c) s h a e = elim (Bool-cases (k == s)) [
  | inl same ↦ let e' : g ≡ h = ground arith in rw ((eq_iff k s).0 same) at (rw e' at a.0)
  | inr other ↦ cached-Agrees rows c s h a.1 (rw other at e)
]

-- One more row moves exactly the counts of its signature, and by one.
counts-append :
    {F : Type 0} (rows : List VerdictRow) (v : Verdict F) (s k : String)
    → counts k (rows ++ (verdict_row v s ∷ [])) ≡ (
        if s == k
        then count_verdict (decision_value v.decision == "suppress") (counts k rows)
        else counts k rows)
unfolding counts verdict_row
counts-append rows v s k = simp tally-append (ground arith)

-- Recording one verdict under one signature keeps every cached count right.
count_cached-Agrees :
    {F : Type 0} (rows : List VerdictRow) (v : Verdict F) (s : String) (c : HistoryCache)
    → Agrees rows c
    → Agrees
        (rows ++ (verdict_row v s ∷ []))
        (count_cached s (decision_value v.decision == "suppress") c)
unfolding count_cached
count_cached-Agrees rows v s [] a = tt
count_cached-Agrees rows v s ((k, h) ∷ c) a =
    (rw (counts-append rows v s k, a.0), count_cached-Agrees rows v s c a.1)

kept-Agrees :
    (rows : List VerdictRow) (b : Bool) (c : HistoryCache)
    → Agrees rows c
    → Agrees rows (if b then [] else c)
kept-Agrees rows true c a = tt
kept-Agrees rows false c a = a

module _ {F : Type 0} where
  -- a memory whose cache has just been checked against the database
  record IsFresh (m : Memory F) : Type 0 where
    current : m.seen_version ≡ m.data_version
    agrees : Agrees m.verdicts m.cache

  refresh-IsFresh : (m : Memory F) → IsCoherent m → IsFresh (refresh m)
  unfolding refresh
  refresh-IsFresh m c = elim (Bool-cases (eqb m.data_version m.seen_version)) [
    | inl same ↦
        let e : m.seen_version ≡ m.data_version = ground arith in
        rw same (record { current = e; agrees = c.agrees e })
    | inr moved ↦ rw moved (record { current = refl; agrees = tt })
  ]

  IsFresh-IsCoherent : (m : Memory F) → IsFresh m → IsCoherent m
  IsFresh-IsCoherent m f = record { not_ahead = omega (arith, f.current); agrees = λ _. f.agrees }

  verdicts-refresh : (m : Memory F) → (refresh m).verdicts ≡ m.verdicts
  unfolding refresh
  verdicts-refresh m = ground arith

  record_one-IsFresh :
      (v : Verdict F) (s : String) (m : Memory F) → IsFresh m → IsFresh (record_one v s m)
  unfolding record_one
  record_one-IsFresh v s m f = record {
    current = f.current;
    agrees = count_cached-Agrees m.verdicts v s m.cache f.agrees;
  }

  record_all-IsFresh :
      (v : Verdict F) (ss : List String) (m : Memory F) → IsFresh m → IsFresh (record_all v ss m)
  unfolding record_all
  record_all-IsFresh v [] m f = f
  record_all-IsFresh v (s ∷ ss) m f =
      record_all-IsFresh v ss (record_one v s m) (record_one-IsFresh v s m f)

  -- What one reading of a history gives: the counts of the rows, and a memory with the same tables
  -- whose cache is right.
  pub record Reads (s : String) (m : Memory F) (out : SignatureHistory × Memory F) : Type 0 where
    pub exact : out.0 ≡ counts s m.verdicts
    pub coherent : IsCoherent out.1
    pub verdicts : out.1.verdicts ≡ m.verdicts
    pub assets : out.1.assets ≡ m.assets
    pub facts : out.1.facts ≡ m.facts

  read_cached-Reads : (s : String) (m : Memory F) → IsFresh m → Reads s m (read_cached s m)
  unfolding read_cached
  read_cached-Reads s m f = elim (Option-cases (cached s m.cache)) [
    | inr (h, hit) ↦
        rw (hit, read_cached)
          (record {
            exact = cached-Agrees m.verdicts m.cache s h f.agrees hit;
            coherent = IsFresh-IsCoherent m f;
            verdicts = refl;
            assets = refl;
            facts = refl;
          })
    | inl missed ↦
        rw (missed, read_cached)
          (record {
            exact = refl;
            coherent = record {
              not_ahead = omega (arith, f.current);
              agrees = λ _.
                  (refl, kept-Agrees m.verdicts (leb max_cached (length m.cache)) m.cache f.agrees);
            };
            verdicts = refl;
            assets = refl;
            facts = refl;
          })
  ]

  refresh-Reads :
      (s : String) (m : Memory F) (out : SignatureHistory × Memory F)
      → Reads s (refresh m) out
      → Reads s m out
  unfolding refresh
  refresh-Reads s m out r = elim (Bool-cases (eqb m.data_version m.seen_version)) [
    | inl same ↦ rw same at r
    | inr moved ↦
        let r' = rw moved at r in
        record {
          exact = r'.exact;
          coherent = r'.coherent;
          verdicts = r'.verdicts;
          assets = r'.assets;
          facts = r'.facts;
        }
  ]

  -- On a coherent memory `history` returns exactly the counts of the verdict rows, whether from the
  -- cache or from the query, changes no table and keeps the memory coherent.
  pub history-Reads : (s : String) (m : Memory F) → IsCoherent m → Reads s m (history s m)
  unfolding history
  history-Reads s m c =
      refresh-Reads s m (read_cached s (refresh m))
        (read_cached-Reads s (refresh m) (refresh-IsFresh m c))

  record_verdict-IsCoherent :
      (v : Verdict F) (context : Value F) (m : Memory F)
      → IsCoherent m
      → IsCoherent (record_verdict v context m)
  unfolding record_verdict
  record_verdict-IsCoherent v context m c =
      IsFresh-IsCoherent _
        (record_all-IsFresh v (signatures v context) (refresh m) (refresh-IsFresh m c))

  pub label_verdicts-IsCoherent :
      (s label : String) (m : Memory F) → IsCoherent m → IsCoherent (label_verdicts s label m)
  unfolding label_verdicts
  label_verdicts-IsCoherent s label m c = record { not_ahead = c.not_ahead; agrees = λ _. tt }

  other_commit-IsCoherent :
      (rows : List VerdictRow) (m : Memory F) → IsCoherent m → IsCoherent (other_commit rows m)
  unfolding other_commit
  other_commit-IsCoherent rows m c = record {
    not_ahead = omega (arith, c.not_ahead);
    agrees = λ e. absurd (omega (arith, c.not_ahead, e));
  }

  -- The cache never holds more than 4096 signatures.
  pub history-bounded :
      (s : String) (m : Memory F)
      → length m.cache ≤ max_cached
      → length (history s m).1.cache ≤ max_cached
  unfolding history read_cached refresh
  history-bounded s m h = ground arith

-- What happens to the verdict table and its cache: a read, a new verdict, a label, or a commit of
-- another connection.
pub data Access (F : Type 0) : Type 0 where
  read : String → Access F
  decide : Verdict F → Value F → Access F
  label : String → String → Access F
  elsewhere : List VerdictRow → Access F

module _ {F : Type 0} where
  abbrev pub access : Access F → Memory F → Memory F
  access (read s) m = (history s m).1
  access (decide v context) m = record_verdict v context m
  access (label s l) m = label_verdicts s l m
  access (elsewhere rows) m = other_commit rows m

  abbrev pub accesses : List (Access F) → Memory F → Memory F
  accesses [] m = m
  accesses (a ∷ rest) m = accesses rest (access a m)

  access-IsCoherent : (a : Access F) (m : Memory F) → IsCoherent m → IsCoherent (access a m)
  access-IsCoherent (read s) m c = (history-Reads s m c).coherent
  access-IsCoherent (decide v context) m c = record_verdict-IsCoherent v context m c
  access-IsCoherent (label s l) m c = label_verdicts-IsCoherent s l m c
  access-IsCoherent (elsewhere rows) m c = other_commit-IsCoherent rows m c

  accesses-IsCoherent :
      (steps : List (Access F)) (m : Memory F) → IsCoherent m → IsCoherent (accesses steps m)
  accesses-IsCoherent [] m c = c
  accesses-IsCoherent (a ∷ rest) m c =
      accesses-IsCoherent rest (access a m) (access-IsCoherent a m c)

  -- From a coherent memory, after any sequence of reads, recorded verdicts, labels and commits of
  -- other connections, a history that is read equals the count of the rows in the verdict table.
  pub history-accesses :
      (steps : List (Access F)) (s : String) (m : Memory F)
      → IsCoherent m
      → (history s (accesses steps m)).0 ≡ counts s (accesses steps m).verdicts
  history-accesses steps s m c =
      (history-Reads s (accesses steps m) (accesses-IsCoherent steps m c)).exact
