-- ===== src/Trace/Chain/Binding.antt =====
-- `_verify_chain` of trace_adapter.py: what a chain digest commits to.
use native.Mathlib.Decide.{ℕ_discrete}
use mathlib.Core.List.{reverse_aux, reverse, reverse-reverse}
use agentrust_telemetry.Base.{
  ℕ, ◌+◌, ◌≡◌, ◌⊎◌, inl, inr, refl, sym, ap, ◌∙◌, Bool, true, false, not, String, Option, none,
  some, List, [], ◌∷◌, ◌++◌, arith, Bool-cases, Char, length, map, str_eq, eq_iff,
}
use agentrust_telemetry.Base.Outcome.{Result, ok, Result-cases, >>=-eq-ok}
use agentrust_telemetry.Value.{Value}
use agentrust_telemetry.Value.Words.{codes}
use agentrust_telemetry.Bytes.{Bytes, IsDigest, hex, from_hex, to_bytes}
use agentrust_telemetry.Bytes.Laws.{from_hex-hex, to_bytes-injective, length-to_bytes}
use agentrust_telemetry.Evidence.{
  Hashing, IsSha256, EvidenceEntry, EvidenceSnapshot, entry_digest, previous_bytes, genesis_digest,
}
use agentrust_telemetry.Trace.Chain.{verify_entry, verify_from, verify_chain}
use agentrust_telemetry.Trace.Chain.Collision.{IsDigested, Collision, widen, of_reverse}
use agentrust_telemetry.Trace.Chain.Laws.{verify_entry-eq-ok, eq_digest_iff}

-- the canonical form of an entry's event, or what `rfc8785.dumps` raises
abbrev pub canonical : Hashing → EvidenceEntry → Result Bytes
canonical h e = h.dumps e.event

not-eq-false : {b : Bool} → not b ≡ false → b ≡ true
not-eq-false h = ground arith

map-reverse_aux {ℓ κ} :
    {A : Type ℓ} {B : Type κ} (f : A → B) (xs ys : List A)
    → map f (reverse_aux xs ys) ≡ reverse_aux (map f xs) (map f ys)
map-reverse_aux f [] ys = refl
map-reverse_aux f (x ∷ xs) ys = map-reverse_aux f xs (x ∷ ys)

map_of_reverse {ℓ κ} :
    {A : Type ℓ} {B : Type κ} (f : A → B) (xs ys : List A)
    → map f (reverse xs) ≡ map f (reverse ys)
    → map f xs ≡ map f ys
map_of_reverse f xs ys e =
    sym (reverse-reverse (map f xs))
    ∙ ap reverse (sym (map-reverse_aux f xs []) ∙ e ∙ map-reverse_aux f ys [])
    ∙ reverse-reverse (map f ys)

append_split {ℓ} :
    {A : Type ℓ} (a b x y : List A) → length a ≡ length b → a ++ x ≡ b ++ y → (a ≡ b) × (x ≡ y)
append_split [] [] x y l e = (refl, e)
append_split [] (c ∷ b) x y l e = absurd (omega arith)
append_split (c ∷ a) [] x y l e = absurd (omega arith)
append_split (c ∷ a) (d ∷ b) x y l e =
    let head : c ≡ d = cc in
    let rest : a ++ x ≡ b ++ y = cc in
    let (same, tail) = append_split a b x y (omega arith) rest in (cc, tail)

bytes_discrete : Discrete Bytes
bytes_discrete = hlevel ℕ_discrete

-- The parts of the text that an entry's digest is taken of.
record Material (h : Hashing) (n : ℕ) (p : Option String) (event : Value) (d : String)
    : Type 0 where
  canonical : Bytes
  previous : Bytes
  position : Bytes
  dumped : h.dumps event ≡ ok canonical
  linked : previous_bytes p ≡ ok previous
  placed : to_bytes 8 n ≡ ok position
  hashed : hex (h.sha256 (previous ++ (position ++ canonical))) ≡ d

abbrev text_of :
    {h : Hashing} {n : ℕ} {p : Option String} {event : Value} {d : String}
    → Material h n p event d
    → Bytes
text_of m = m.previous ++ (m.position ++ m.canonical)

material :
    (h : Hashing) (n : ℕ) (p : Option String) (event : Value) {d : String}
    → entry_digest h n p event ≡ ok d
    → Material h n p event d
unfolding entry_digest
material h n p event eq =
    let (canonical, dumped, e1) = >>=-eq-ok (h.dumps event) _ eq in
    let (previous, linked, e2) = >>=-eq-ok (previous_bytes p) _ e1 in
    let (position, placed, e3) = >>=-eq-ok (to_bytes 8 n) _ e2 in
    record {
      canonical = canonical;
      previous = previous;
      position = position;
      dumped = dumped;
      linked = linked;
      placed = placed;
      hashed = cc;
    }

-- what an entry stores of its place
abbrev IsStored : EvidenceEntry → ℕ → Option String → String → Type 0
IsStored e n p d = (e.sequence ≡ n) × (e.previous_digest ≡ p) × (e.digest ≡ d)

-- The entries, the newest first, with the digest of the newest.
abbrev Links : Hashing → List EvidenceEntry → Option String → Type 0
Links h [] q = q ≡ none
Links h (e ∷ older) q =
    (p : Option String) × (d : String) × (q ≡ some d)
    × (entry_digest h (length older) p e.event ≡ ok d)
    × IsStored e (length older) p d
    × Links h older p

Links-of_verify_from :
    (h : Hashing) (run_id : String) (n : ℕ) (p : Option String) (xs older : List EvidenceEntry)
    {q : Option String}
    → verify_from h run_id n p xs ≡ ok q
    → length older ≡ n
    → Links h older p
    → Links h (reverse_aux xs older) q
unfolding verify_from
Links-of_verify_from h run_id n p [] older {q} eq l links =
    let same : p ≡ q = cc in rw (← same) links
Links-of_verify_from h run_id n p (x ∷ xs) older {q} eq l links =
    let (d, first, rest) = >>=-eq-ok (verify_entry h run_id n p x) _ eq in
    let checked = verify_entry-eq-ok h run_id n p x first in
    Links-of_verify_from h run_id (n + 1) (some d) xs (x ∷ older) rest (omega arith) (
      p,
      d,
      refl,
      rw l checked.computed,
      (checked.position ∙ sym l, checked.previous, checked.stored),
      links,
    )

abbrev newest : List EvidenceEntry → Bytes → Option String
newest [] b = none
newest (e ∷ older) b = some (hex b)

newest_eq :
    (xs ys : List EvidenceEntry) {a b : Bytes}
    → length xs ≡ length ys
    → a ≡ b
    → newest xs a ≡ newest ys b
newest_eq [] [] l e = refl
newest_eq [] (y ∷ ys) l e = absurd (omega arith)
newest_eq (x ∷ xs) [] l e = absurd (omega arith)
newest_eq (x ∷ xs) (y ∷ ys) l e = ap (λ b. some (hex b)) e

cons-ne-nil : (c : Char) (s : String) → str_eq (String.◌∷◌ c s) "" ≡ false
cons-ne-nil c s = elim (Bool-cases (str_eq (String.◌∷◌ c s) "")) [
  | inl e ↦ cc (ap codes ((eq_iff _ _).0 e))
  | inr e ↦ e
]

module _ (h : Hashing) (sound : IsSha256 h) where
  hex-ne-nil : (bs : Bytes) → IsDigest bs → str_eq (hex bs) "" ≡ false
  unfolding hex
  hex-ne-nil [] d = absurd (omega arith)
  hex-ne-nil (b ∷ bs) d = cons-ne-nil _ _

  previous_bytes-hex : (m : Bytes) → previous_bytes (some (hex (h.sha256 m))) ≡ ok (h.sha256 m)
  unfolding previous_bytes
  previous_bytes-hex m =
      rw (hex-ne-nil (h.sha256 m) (sound m)) (from_hex-hex (h.sha256 m) (sound m).1)

  -- The digest that a chain ends in can stand before a further entry.
  previous-Links :
      (xs : List EvidenceEntry) (p : Option String)
      → Links h xs p
      → (b : Bytes) × (previous_bytes p ≡ ok b)
  unfolding previous_bytes
  previous-Links [] p links = (genesis_digest, ap previous_bytes links)
  previous-Links (e ∷ older) p (p', d, same, computed, _, links) =
      let m = material h (length older) p' e.event computed in
      (
        h.sha256 (text_of m),
        ap previous_bytes (same ∙ ap some (sym m.hashed)) ∙ previous_bytes-hex (text_of m),
      )

  pub verify_from-previous_bytes :
      (run_id : String) (xs : List EvidenceEntry) {q : Option String}
      → verify_from h run_id 0 none xs ≡ ok q
      → (b : Bytes) × (previous_bytes q ≡ ok b)
  verify_from-previous_bytes run_id xs {q} e =
      previous-Links (reverse_aux xs []) q (Links-of_verify_from h run_id 0 none xs [] e refl refl)

  -- what stands before the newest entry of a chain
  previous_of_Links :
      (xs : List EvidenceEntry) (p : Option String) (b : Bytes)
      → Links h xs p
      → previous_bytes p ≡ ok b
      → (length b ≡ 32) × (p ≡ newest xs b)
  previous_of_Links [] p b links eq =
      let start : previous_bytes none ≡ ok b = rw (← links) eq in
      let genesis : genesis_digest ≡ b = unfold previous_bytes in cc start in
      (sym (ap length genesis), links)
  previous_of_Links (e ∷ older) p b (p', d, same, computed, _, links) eq =
      let m = material h (length older) p' e.event computed in
      let named : p ≡ some (hex (h.sha256 (text_of m))) = same ∙ ap some (sym m.hashed) in
      let bytes : h.sha256 (text_of m) ≡ b =
        cc (previous_bytes-hex (text_of m), eq, ap previous_bytes named) in
      (sym (ap length bytes) ∙ (sound (text_of m)).0, named ∙ ap (λ x. some (hex x)) bytes)

  digested :
      (e : EvidenceEntry) {n : ℕ} {p : Option String} {d : String} (m : Material h n p e.event d)
      → IsStored e n p d
      → IsDigested h e (text_of m)
  digested e m (at, before, stored) = record {
    canonical_form = m.canonical;
    previous = m.previous;
    position = m.position;
    dumped = m.dumped;
    linked = ap previous_bytes before ∙ m.linked;
    placed = ap (to_bytes 8) at ∙ m.placed;
    joined = refl;
    hashed = m.hashed ∙ sym stored;
  }

  -- two entries with one digest, over two texts that are one or collide
  same-Material :
      (x y : EvidenceEntry) (xs ys : List EvidenceEntry) (m n : ℕ) (p q : Option String)
      {d : String} (a : Material h m p x.event d) (b : Material h n q y.event d)
      → IsStored x m p d
      → IsStored y n q d
      → (text_of a ≡ text_of b) ⊎ Collision h (x ∷ xs) (y ∷ ys)
  same-Material x y xs ys m n p q a b stored stored' =
      let hashes : h.sha256 (text_of a) ≡ h.sha256 (text_of b) = cc (
        from_hex-hex (h.sha256 (text_of a)) (sound (text_of a)).1,
        from_hex-hex (h.sha256 (text_of b)) (sound (text_of b)).1,
        ap (λ x. from_hex (codes x)) (a.hashed ∙ sym b.hashed),
      ) in
      elim (bytes_discrete (text_of a) (text_of b)) [
        | yes e ↦ inl e
        | no ne ↦ inr (record {
          one = x;
          other = y;
          one_there = inl refl;
          other_there = inl refl;
          left = text_of a;
          right = text_of b;
          left_digested = digested x a stored;
          right_digested = digested y b stored';
          differ = ne;
          collide = hashes;
        })
      ]

  -- two entries over one text have the same canonical event and stand on the same digest
  same_entry :
      (xs ys : List EvidenceEntry) (p q : Option String) (v w : Value) {d : String}
      (a : Material h (length xs) p v d) (b : Material h (length ys) q w d)
      → Links h xs p
      → Links h ys q
      → text_of a ≡ text_of b
      → (h.dumps v ≡ h.dumps w) × (p ≡ q)
  same_entry xs ys p q v w a b older older' texts =
      let (fits, shape) = previous_of_Links xs p a.previous older a.linked in
      let (fits', shape') = previous_of_Links ys q b.previous older' b.linked in
      let (before, rest) =
        append_split a.previous b.previous (a.position ++ a.canonical) (b.position ++ b.canonical)
          (fits ∙ sym fits') texts in
      let wide = length-to_bytes 8 _ _ a.placed ∙ sym (length-to_bytes 8 _ _ b.placed) in
      let (place, same) = append_split a.position b.position a.canonical b.canonical wide rest in
      let position = to_bytes-injective 8 _ _ _ a.placed (b.placed ∙ ap ok (sym place)) in
      (a.dumped ∙ ap ok same ∙ sym b.dumped, shape ∙ newest_eq xs ys position before ∙ sym shape')

  same-Links :
      (xs ys : List EvidenceEntry) (q : Option String)
      → Links h xs q
      → Links h ys q
      → (map (canonical h) xs ≡ map (canonical h) ys) ⊎ Collision h xs ys
  same-Links [] [] q k l = inl refl
  same-Links [] (y ∷ ys) q k (_, _, l, _, _, _) = cc
  same-Links (x ∷ xs) [] q (_, _, k, _, _, _) l = cc
  same-Links (x ∷ xs) (y ∷ ys) q (p, d, k, made, stored, older)
        (p', d', l, made', stored', older') =
      let d_eq : d' ≡ d = cc in
      let a = material h (length xs) p x.event made in
      let b = material h (length ys) p' y.event (made' ∙ ap ok d_eq) in
      let there : IsStored y (length ys) p' d = (stored'.0, stored'.1, stored'.2 ∙ d_eq) in
      elim (same-Material x y xs ys (length xs) (length ys) p p' a b stored there) [
        | inr collision ↦ inr collision
        | inl texts ↦
            let (event_eq, p_eq) = same_entry xs ys p p' x.event y.event a b older older' texts in
            elim (same-Links xs ys p older (rw p_eq older')) [
              | inr collision ↦
                  inr (widen h xs ys (x ∷ xs) (y ∷ ys) (λ e m. inr m) (λ e m. inr m) collision)
              | inl ih ↦ inl (λ i. event_eq i ∷ ih i)
            ]
      ]

-- What `_verify_chain` checks before and after its loop.
pub verify_chain-eq-ok :
    (h : Hashing) (s : EvidenceSnapshot)
    → verify_chain h s ≡ ok tt
    → verify_from h s.run_id 0 none s.entries ≡ ok s.chain_digest
unfolding verify_chain
verify_chain-eq-ok h s eq = elim (Result-cases (verify_from h s.run_id 0 none s.entries)) [
  | inl (q, loop) ↦ ground (arith, eq_digest_iff s.chain_digest q)
  | inr (e, raised) ↦ ground arith
]

-- Two snapshots that `_verify_chain` accepts and that state the same chain digest hold the same
-- canonical events in the same order, unless an entry of the one and an entry of the other store
-- digests of two different texts that have one SHA-256 digest. The condition is that SHA-256 gives
-- 32 bytes.
pub chain_binding :
    (h : Hashing) (s t : EvidenceSnapshot)
    → IsSha256 h
    → verify_chain h s ≡ ok tt
    → verify_chain h t ≡ ok tt
    → s.chain_digest ≡ t.chain_digest
    → (map (canonical h) s.entries ≡ map (canonical h) t.entries) ⊎ Collision h s.entries t.entries
chain_binding h s t sound p q same =
    let links =
      Links-of_verify_from h s.run_id 0 none s.entries [] (verify_chain-eq-ok h s p) refl refl in
    let links' =
      Links-of_verify_from h t.run_id 0 none t.entries []
        (verify_chain-eq-ok h t q ∙ ap ok (sym same)) refl refl in
    elim (same-Links h sound (reverse s.entries) (reverse t.entries) s.chain_digest links links') [
      | inr collision ↦ inr (
          widen h (reverse s.entries) (reverse t.entries) s.entries t.entries (of_reverse s.entries)
            (of_reverse t.entries) collision)
      | inl e ↦ inl (map_of_reverse (canonical h) s.entries t.entries e)
    ]
