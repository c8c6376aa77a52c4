-- ===== src/Network/Sublists.antt =====
-- Parts of a list, in the order of the list.
use mathlib.Core.Path.{subst}
use mathlib.Core.List.{Sublistᴰ, map-append}
use mathlib.Core.List.Sublistᴰ.{slnil, cons, cons-cons, nil-sublist}
use tram.Prelude.{ℕ, ◌≡◌, List, [], ◌∷◌, ◌++◌, map, refl, ap, sym, ◌∙◌}
use tram.Sys.{Pdu}
use tram.Listener.Player.{Selected, nothing, skip, keep}
use tram.Network
use tram.Network.{Carried, lost, arrived, foreign}

module _ {ℓ} {A : Type ℓ} where
  pub Sublistᴰ-right : {xs ys : List A} (y : A) → Sublistᴰ xs ys → Sublistᴰ xs (ys ++ (y ∷ []))
  Sublistᴰ-right y slnil = cons slnil
  Sublistᴰ-right y (cons s) = cons (Sublistᴰ-right y s)
  Sublistᴰ-right y (cons-cons e s) = cons-cons e (Sublistᴰ-right y s)

  pub Sublistᴰ-left : (xs ys : List A) → Sublistᴰ xs (xs ++ ys)
  Sublistᴰ-left [] ys = nil-sublist ys
  Sublistᴰ-left (x ∷ xs) ys = cons-cons refl (Sublistᴰ-left xs ys)

  pub Sublistᴰ-snoc :
      {xs ys : List A} (y : A) → Sublistᴰ xs ys → Sublistᴰ (xs ++ (y ∷ [])) (ys ++ (y ∷ []))
  Sublistᴰ-snoc y slnil = cons-cons refl slnil
  Sublistᴰ-snoc y (cons s) = cons (Sublistᴰ-snoc y s)
  Sublistᴰ-snoc y (cons-cons e s) = cons-cons e (Sublistᴰ-snoc y s)

pub Sublistᴰ-map {ℓ} :
    {A B : Type ℓ} (f : A → B) {xs ys : List A} → Sublistᴰ xs ys → Sublistᴰ (map f xs) (map f ys)
Sublistᴰ-map f slnil = slnil
Sublistᴰ-map f (cons s) = cons (Sublistᴰ-map f s)
Sublistᴰ-map f (cons-cons e s) = cons-cons (ap f e) (Sublistᴰ-map f s)

module _ (ok : Pdu → Type 0) where
  abbrev All : List Pdu → Type 0
  All [] = Unit
  All (pdu ∷ rest) = ok pdu × All rest

  All-snoc : (xs : List Pdu) (pdu : Pdu) → All xs → ok pdu → All (xs ++ (pdu ∷ []))
  All-snoc [] pdu all fine = (fine, tt)
  All-snoc (x ∷ xs) pdu (first, all) fine = (first, All-snoc xs pdu all fine)

  -- the packets whose samples have been selected
  Selected-Sublistᴰ :
      (cut : Pdu → List ℕ) {heard : List Pdu} {xs : List (List ℕ)}
      → Selected ok cut heard xs
      → (ps : List Pdu) × (xs ≡ map cut ps) × All ps × Sublistᴰ ps heard
  Selected-Sublistᴰ cut nothing = ([], refl, tt, slnil)
  Selected-Sublistᴰ cut (skip pdu s) =
      let (ps, e, all, part) = Selected-Sublistᴰ cut s in (ps, e, all, Sublistᴰ-right pdu part)
  Selected-Sublistᴰ cut (keep pdu fine s) =
      let (ps, e, all, part) = Selected-Sublistᴰ cut s in
      (
        ps ++ (pdu ∷ []),
        ap (λ l. l ++ (cut pdu ∷ [])) e ∙ sym (map-append cut ps (pdu ∷ [])),
        All-snoc ps pdu all fine,
        Sublistᴰ-snoc pdu part,
      )

  -- a part of what was received that is `ok` is a part of what was sent
  Carried-Sublistᴰ :
      {ps rs ss : List Pdu} → Sublistᴰ ps rs → All ps → Carried ok rs ss → Sublistᴰ ps ss
  Carried-Sublistᴰ part all (lost pdu c) = cons (Carried-Sublistᴰ part all c)
  Carried-Sublistᴰ slnil all Network.nothing = slnil
  Carried-Sublistᴰ (cons part) all (arrived pdu c) = cons (Carried-Sublistᴰ part all c)
  Carried-Sublistᴰ (cons part) all (foreign pdu bad c) = Carried-Sublistᴰ part all c
  Carried-Sublistᴰ (cons-cons e part) all (arrived pdu c) =
      cons-cons e (Carried-Sublistᴰ part all.1 c)
  Carried-Sublistᴰ (cons-cons e part) all (foreign pdu bad c) = absurd (bad (subst ok e all.0))

  -- What has been selected of the packets received is a part of what was sent.
  pub Selected-Carried :
      (cut : Pdu → List ℕ) {heard sent : List Pdu} {xs : List (List ℕ)}
      → Selected ok cut heard xs
      → Carried ok heard sent
      → Sublistᴰ xs (map cut sent)
  Selected-Carried cut selected carried =
      let (ps, e, all, part) = Selected-Sublistᴰ cut selected in
      rw e (Sublistᴰ-map cut (Carried-Sublistᴰ part all carried))
