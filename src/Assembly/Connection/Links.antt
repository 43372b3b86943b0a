-- ===== src/Assembly/Connection/Links.antt =====
-- Doubly linked lists of pages in the store (capturer/extendedassembly.go, `page.prev` and
-- `page.next`), and what the writes to one page do to them.
use data_collector.Base.{
  ℕ, ◌≡◌, refl, ◌≢◌, List, [], ◌∷◌, ◌++◌, Option, none, some, arith, All, All-map, NotIn, Distinct,
  update, update_self, update_ne, sym, ◌∙◌,
}
use data_collector.Assembly.Page.{Page, Reassembly, set_next, set_prev, set_reassembly}

-- The first page of a list that goes on with `a`, and the last of one that begins behind `b`.
abbrev pub first_of : List ℕ → Option ℕ → Option ℕ
first_of [] a = a
first_of (x ∷ xs) a = some x

abbrev pub last_of : Option ℕ → List ℕ → Option ℕ
last_of b [] = b
last_of b (x ∷ xs) = last_of (some x) xs

-- The pages are linked in this order, between `b` and `a`.
abbrev pub Chain : (ℕ → Page) → Option ℕ → List ℕ → Option ℕ → Type 0
Chain h b [] a = Unit {0}
Chain h b (p ∷ ps) a = ((h p).prev ≡ b) × ((h p).next ≡ first_of ps a) × Chain h (some p) ps a

pub last_of-append :
    (b : Option ℕ) (xs ys : List ℕ) → last_of b (xs ++ ys) ≡ last_of (last_of b xs) ys
last_of-append b [] ys = refl
last_of-append b (x ∷ xs) ys = last_of-append (some x) xs ys

pub first_of-append :
    (xs ys : List ℕ) (a : Option ℕ) → first_of (xs ++ ys) a ≡ first_of xs (first_of ys a)
first_of-append [] ys a = refl
first_of-append (x ∷ xs) ys a = refl

-- The last page is one of the pages.
pub ne_last : (x p y : ℕ) (ys : List ℕ) → last_of none (y ∷ ys) ≡ some p → NotIn x (y ∷ ys) → x ≢ p
ne_last x p y [] e far = ground (arith, far.0)
ne_last x p y (z ∷ zs) e far = ne_last x p z zs e far.1

pub last_exists : (y : ℕ) (ys : List ℕ) → (p : ℕ) × (last_of none (y ∷ ys) ≡ some p)
last_exists y [] = (y, refl)
last_exists y (z ∷ zs) = last_exists z zs

-- A list does not see writes to other pages.
pub Chain-frame :
    (h h' : ℕ → Page) (b : Option ℕ) (ids : List ℕ) (a : Option ℕ)
    → All (λ q. h' q ≡ h q) ids
    → Chain h b ids a
    → Chain h' b ids a
Chain-frame h h' b [] a same c = tt
Chain-frame h h' b (p ∷ ps) a same c =
    (rw same.0 c.0, rw same.0 c.1, Chain-frame h h' (some p) ps a same.1 c.2)

pub update_others :
    (h : ℕ → Page) (p : ℕ) (v : Page) (ids : List ℕ)
    → NotIn p ids
    → All (λ q. update h p v q ≡ h q) ids
update_others h p v ids = All-map _ _ ids (λ q ne. update_ne h p q v ne)

pub Chain-set_next :
    (h : ℕ → Page) (p : ℕ) (v b : Option ℕ) (ids : List ℕ) (a : Option ℕ)
    → NotIn p ids
    → Chain h b ids a
    → Chain (set_next h p v) b ids a
unfolding set_next
Chain-set_next h p v b ids a far = Chain-frame h _ b ids a (update_others h p _ ids far)

pub Chain-set_prev :
    (h : ℕ → Page) (p : ℕ) (v b : Option ℕ) (ids : List ℕ) (a : Option ℕ)
    → NotIn p ids
    → Chain h b ids a
    → Chain (set_prev h p v) b ids a
unfolding set_prev
Chain-set_prev h p v b ids a far = Chain-frame h _ b ids a (update_others h p _ ids far)

-- A reassembly is no link.
pub Chain-set_reassembly :
    (h : ℕ → Page) (p : ℕ) (r : Reassembly) (b : Option ℕ) (ids : List ℕ) (a : Option ℕ)
    → Chain h b ids a
    → Chain (set_reassembly h p r) b ids a
unfolding set_reassembly update
Chain-set_reassembly h p r b [] a c = tt
Chain-set_reassembly h p r b (q ∷ ps) a c =
    (ground (arith, c.0), ground (arith, c.1), Chain-set_reassembly h p r (some q) ps a c.2)

-- A list is two lists, end to end.
pub Chain-split :
    (h : ℕ → Page) (b : Option ℕ) (xs ys : List ℕ) (a : Option ℕ)
    → Chain h b (xs ++ ys) a
    → Chain h b xs (first_of ys a) × Chain h (last_of b xs) ys a
Chain-split h b [] ys a c = (tt, c)
Chain-split h b (x ∷ xs) ys a c =
    let (l, r) = Chain-split h (some x) xs ys a c.2 in ((c.0, c.1 ∙ first_of-append xs ys a, l), r)

pub Chain-append :
    (h : ℕ → Page) (b : Option ℕ) (xs ys : List ℕ) (a : Option ℕ)
    → Chain h b xs (first_of ys a)
    → Chain h (last_of b xs) ys a
    → Chain h b (xs ++ ys) a
Chain-append h b [] ys a l r = r
Chain-append h b (x ∷ xs) ys a l r =
    (l.0, l.1 ∙ sym (first_of-append xs ys a), Chain-append h (some x) xs ys a l.2 r)

-- The first page given another predecessor, and the last page another successor.
pub relink_prev :
    (h : ℕ → Page) (v b : Option ℕ) (y : ℕ) (ys : List ℕ) (a : Option ℕ)
    → NotIn y ys
    → Chain h b (y ∷ ys) a
    → Chain (set_prev h y v) v (y ∷ ys) a
unfolding set_prev
relink_prev h v b y ys a far c = (
  rw (update_self h y (record (h y) { prev = v })),
  rw (update_self h y (record (h y) { prev = v })) c.1,
  Chain-frame h _ (some y) ys a (update_others h y _ ys far) c.2,
)

pub relink_next :
    (h : ℕ → Page) (p : ℕ) (v b : Option ℕ) (y : ℕ) (ys : List ℕ) (a : Option ℕ)
    → Distinct (y ∷ ys)
    → last_of none (y ∷ ys) ≡ some p
    → Chain h b (y ∷ ys) a
    → Chain (set_next h p v) b (y ∷ ys) v
unfolding set_next update
relink_next h p v b y [] a d e c = (ground (arith, c.0), ground arith, tt)
relink_next h p v b y (z ∷ zs) a d e c = (
  ground (arith, c.0, ne_last y p z zs e d.0),
  ground (arith, c.1, ne_last y p z zs e d.0),
  relink_next h p v (some y) z zs a d.1 e c.2,
)

-- A page that is not in the list is neither its first nor its last.
pub first_of-ne : (q : ℕ) (xs : List ℕ) → NotIn q xs → first_of xs none ≢ some q
first_of-ne q [] far e = cc
first_of-ne q (x ∷ xs) far e = far.0 (ground arith)

pub last_of-ne : (q : ℕ) (xs : List ℕ) → NotIn q xs → last_of none xs ≢ some q
last_of-ne q [] far e = cc
last_of-ne q (x ∷ xs) far e = ne_last q q x xs e far refl
