-- ===== src/Trace/Chain/Collision.antt =====
-- `_verify_chain` of trace_adapter.py: two entries whose stored digests collide.
use mathlib.Core.List.{reverse_aux, reverse}
use agentrust_telemetry.Base.{◌≡◌, ◌≢◌, ◌⊎◌, inl, inr, List, [], ◌∷◌, ◌++◌, Some}
use agentrust_telemetry.Base.Outcome.{ok}
use agentrust_telemetry.Bytes.{Bytes, hex, to_bytes}
use agentrust_telemetry.Evidence.{Hashing, EvidenceEntry, previous_bytes}

-- The text that the stored digest of an entry is the SHA-256 digest of: the bytes of its stored
-- previous digest, its stored sequence number in eight bytes and the canonical form of its event.
pub record IsDigested (h : Hashing) (e : EvidenceEntry) (text : Bytes) : Type 0 where
  pub canonical_form : Bytes
  pub previous : Bytes
  pub position : Bytes
  pub dumped : h.dumps e.event ≡ ok canonical_form
  pub linked : previous_bytes e.previous_digest ≡ ok previous
  pub placed : to_bytes 8 e.sequence ≡ ok position
  pub joined : text ≡ previous ++ (position ++ canonical_form)
  pub hashed : hex (h.sha256 text) ≡ e.digest

abbrev pub IsEntryOf : EvidenceEntry → List EvidenceEntry → Type 0
IsEntryOf e xs = Some (λ x. x ≡ e) xs

-- An entry of each list, such that the texts of their stored digests differ and have one SHA-256
-- digest.
pub record Collision (h : Hashing) (xs ys : List EvidenceEntry) : Type 0 where
  pub one : EvidenceEntry
  pub other : EvidenceEntry
  pub one_there : IsEntryOf one xs
  pub other_there : IsEntryOf other ys
  pub left : Bytes
  pub right : Bytes
  pub left_digested : IsDigested h one left
  pub right_digested : IsDigested h other right
  pub differ : left ≢ right
  pub collide : h.sha256 left ≡ h.sha256 right

-- The same collision in lists that hold the entries too.
pub widen :
    (h : Hashing) (xs ys zs ws : List EvidenceEntry)
    → ((e : EvidenceEntry) → IsEntryOf e xs → IsEntryOf e zs)
    → ((e : EvidenceEntry) → IsEntryOf e ys → IsEntryOf e ws)
    → Collision h xs ys
    → Collision h zs ws
widen h xs ys zs ws f g c = record {
  one = c.one;
  other = c.other;
  one_there = f c.one c.one_there;
  other_there = g c.other c.other_there;
  left = c.left;
  right = c.right;
  left_digested = c.left_digested;
  right_digested = c.right_digested;
  differ = c.differ;
  collide = c.collide;
}

Some-reverse_aux {ℓ} :
    {A : Type ℓ} (P : A → Type 0) (xs ys : List A)
    → Some P (reverse_aux xs ys)
    → Some P xs ⊎ Some P ys
Some-reverse_aux P [] ys h = inr h
Some-reverse_aux P (x ∷ xs) ys h = elim (Some-reverse_aux P xs (x ∷ ys) h) [
  | inl s ↦ inl (inr s)
  | inr t ↦ elim t [ inl p ↦ inl (inl p) | inr q ↦ inr q ]
]

pub of_reverse :
    (xs : List EvidenceEntry) (e : EvidenceEntry) → IsEntryOf e (reverse xs) → IsEntryOf e xs
of_reverse xs e h = elim (Some-reverse_aux (λ x. x ≡ e) xs [] h) [ inl s ↦ s | inr t ↦ absurd t ]
