-- ===== src/Orders/Status/Evidence.antt =====
-- orders.service.ts, `assertDeliveryEvidenceReady`: what a delivery needs.
use transport_api.Common.{
  Bool, List, [], any, any-congr, arith, false, if◌then◌else◌, length, ltb, map, not, refl, select,
  true, ℕ, ◌&&◌, ◌++◌, ◌==◌, ◌||◌, ◌∷◌, ◌≡◌,
}
use transport_api.Common.Action.{bad_request, err, ok}
use transport_api.Orders.Access.{assert_delivery_evidence_ready, flat_urls, is_delivery_photo}
use transport_api.Orders.Closing.{contains, dedup}
use transport_api.World.{Attachment, DeliveryProof, World}

-- A photo of a delivery proof of the order, by its type and its name.
abbrev pub is_photo_of : ℕ → World → Attachment → Bool
is_photo_of order_id w a =
    any (λ (p : DeliveryProof). p.id == a.entity_id && p.order_id == order_id) w.proofs
    && a.is_image
    && not a.named_signature

-- A file that some proof of the order names as a signature.
abbrev pub is_signature_of : ℕ → World → ℕ → Bool
is_signature_of order_id w url =
    any (λ (p : DeliveryProof). p.order_id == order_id && contains url p.signature_urls) w.proofs

contains-append : (x : ℕ) (xs ys : List ℕ) → contains x (xs ++ ys) ≡ contains x xs || contains x ys
contains-append x [] ys = refl
contains-append x (y ∷ xs) ys = ground (arith, contains-append x xs ys)

contains-drop :
    (x y : ℕ) (xs : List ℕ)
    → contains x (select (λ z. not (z == y)) xs) ≡ contains x xs && not (x == y)
contains-drop x y [] = refl
contains-drop x y (z ∷ xs) = ground (arith, contains-drop x y xs)

contains-dedup : (x : ℕ) (xs : List ℕ) → contains x (dedup xs) ≡ contains x xs
contains-dedup x [] = refl
contains-dedup x (y ∷ xs) = ground (arith, contains-drop x y (dedup xs), contains-dedup x xs)

signature_urls_sound :
    (order_id url : ℕ) (ps : List DeliveryProof)
    → contains url (flat_urls (select (λ (p : DeliveryProof). p.order_id == order_id) ps))
      ≡ any (λ (p : DeliveryProof). p.order_id == order_id && contains url p.signature_urls) ps
signature_urls_sound order_id url [] = refl
signature_urls_sound order_id url (p ∷ ps) =
    let rest = flat_urls (select (λ (p : DeliveryProof). p.order_id == order_id) ps) in
    ground (arith, contains-append url p.signature_urls rest, signature_urls_sound order_id url ps)

proof_ids_sound :
    (order_id entity : ℕ) (ps : List DeliveryProof)
    → contains entity (
        map
          (λ (p : DeliveryProof). p.id)
          (select (λ (p : DeliveryProof). p.order_id == order_id) ps))
      ≡ any (λ (p : DeliveryProof). p.id == entity && p.order_id == order_id) ps
proof_ids_sound order_id entity [] = refl
proof_ids_sound order_id entity (p ∷ ps) = ground (arith, proof_ids_sound order_id entity ps)

has_url : (xs ys : List ℕ) → ltb 0 (length (xs ++ ys)) ≡ ltb 0 (length xs) || ltb 0 (length ys)
has_url [] ys = refl
has_url (x ∷ xs) ys = ground arith

dedup_keeps_some : (xs : List ℕ) → ltb 0 (length (dedup xs)) ≡ ltb 0 (length xs)
dedup_keeps_some [] = refl
dedup_keeps_some (x ∷ xs) = ground arith

-- Some proof of the order carries a signature.
abbrev pub has_signature : ℕ → List DeliveryProof → Bool
has_signature order_id ps =
    any (λ (p : DeliveryProof). p.order_id == order_id && ltb 0 (length p.signature_urls)) ps

has_signature_sound :
    (order_id : ℕ) (ps : List DeliveryProof)
    → ltb 0 (length (flat_urls (select (λ (p : DeliveryProof). p.order_id == order_id) ps)))
      ≡ has_signature order_id ps
has_signature_sound order_id [] = refl
has_signature_sound order_id (p ∷ ps) =
    let rest = flat_urls (select (λ (p : DeliveryProof). p.order_id == order_id) ps) in
    ground (arith, has_url p.signature_urls rest, has_signature_sound order_id ps)

has_signature-proofs :
    (order_id : ℕ) (ps : List DeliveryProof)
    → has_signature order_id ps ≡ true
    → (length (select (λ (p : DeliveryProof). p.order_id == order_id) ps) == 0) ≡ false
has_signature-proofs order_id [] h = cc
has_signature-proofs order_id (p ∷ ps) h = ground (arith, has_signature-proofs order_id ps)

-- The evidence that a delivery needs: a signature on some proof of the order, and a photo of the
-- order's proofs that no proof of the order names as a signature.
abbrev pub evidence_ready : ℕ → World → Bool
evidence_ready order_id w =
    has_signature order_id w.proofs
    && any
        (λ (a : Attachment).
          is_photo_of order_id w a && not (is_signature_of order_id w a.file_url))
        w.attachments

photos_sound :
    (order_id : ℕ) (w : World)
    → let proofs = select (λ (p : DeliveryProof). p.order_id == order_id) w.proofs in
      any
        (is_delivery_photo (map (λ (p : DeliveryProof). p.id) proofs) (dedup (flat_urls proofs)))
        w.attachments
      ≡ any
          (λ (a : Attachment).
            is_photo_of order_id w a && not (is_signature_of order_id w a.file_url))
          w.attachments
photos_sound order_id w =
    let urls = flat_urls (select (λ (p : DeliveryProof). p.order_id == order_id) w.proofs) in
    any-congr _ _ w.attachments (λ (a : Attachment). ground (
      arith,
      proof_ids_sound order_id a.entity_id w.proofs,
      contains-dedup a.file_url urls,
      signature_urls_sound order_id a.file_url w.proofs,
    ))

-- The check passes exactly for an order whose evidence is ready, and is a bad request otherwise; it
-- writes nothing.
pub delivery_needs_evidence :
    (order_id : ℕ) (w : World)
    → assert_delivery_evidence_ready order_id w
      ≡ (if evidence_ready order_id w then ok tt else err bad_request, w)
unfolding assert_delivery_evidence_ready
delivery_needs_evidence order_id w =
    let urls = flat_urls (select (λ (p : DeliveryProof). p.order_id == order_id) w.proofs) in
    rw (dedup_keeps_some urls, has_signature_sound order_id w.proofs, photos_sound order_id w)
      (ground (arith, has_signature-proofs order_id w.proofs))
