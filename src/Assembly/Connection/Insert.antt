-- ===== src/Assembly/Connection/Insert.antt =====
-- `pushBetween` of capturer/extendedassembly.go: the new pages stand between the two parts of the
-- old list.
use data_collector.Base.{
  ℕ, ◌≡◌, refl, List, [], ◌∷◌, ◌++◌, Option, none, some, arith, NotIn, Distinct, Apart, Apart-sym,
  Apart-left, Apart-right, Distinct-left, Distinct-right, Distinct-Apart, sym, ◌∙◌, append-nil, ap,
  subst,
}
use data_collector.Assembly.Page.{Page, set_next, set_prev}
use data_collector.Assembly.Connection.{Connection, link_last, link_first, push_between}
use data_collector.Assembly.Connection.Links.{
  first_of, last_of, Chain, Chain-set_next, Chain-set_prev, Chain-append, Chain-split, relink_prev,
  relink_next, last_of-append, last_exists,
}

-- The connection's list is these pages.
pub record Holds (c : Connection) (h : ℕ → Page) (ids : List ℕ) : Type 0 where
  pub first_is : c.first ≡ first_of ids none
  pub last_is : c.last ≡ last_of none ids
  pub linked : Chain h none ids none

-- A page that is last in `xs` is none of `ys`.
pub last-Apart :
    (x : ℕ) (xs ys : List ℕ) (p : ℕ)
    → last_of none (x ∷ xs) ≡ some p
    → Apart (x ∷ xs) ys
    → NotIn p ys
last-Apart x [] ys p e h = let same : x ≡ p = ground arith in subst (λ q. NotIn q ys) same h.0
last-Apart x (z ∷ zs) ys p e h = last-Apart z zs ys p e h.1

link_last-some :
    (c : Connection) (h : ℕ → Page) (n l z : ℕ)
    → c.last ≡ some z
    → link_last c h (some n) l ≡ (c, set_prev (set_next h l (some n)) n (some l))
unfolding link_last
link_last-some c h n l z e = ground (arith, e)

link_first-some :
    (c : Connection) (h : ℕ → Page) (p f z : ℕ)
    → c.first ≡ some z
    → link_first c h (some p) f ≡ (c, set_next (set_prev h f (some p)) p (some f))
unfolding link_first
link_first-some c h p f z e = ground (arith, e)

last_of_cons :
    (b : Option ℕ) (pre : List ℕ) (n : ℕ) (ns : List ℕ)
    → last_of b (pre ++ n ∷ ns) ≡ last_of none (n ∷ ns)
last_of_cons b pre n ns = last_of-append b pre (n ∷ ns)

-- What `link_last` leaves: the parts of the list, the last two joined.
record Joined (c : Connection) (pre new post : List ℕ) (r : Connection × (ℕ → Page)) : Type 0 where
  last_is : r.0.last ≡ last_of none (pre ++ (new ++ post))
  first_kept : r.0.first ≡ c.first
  left : Chain r.1 none pre (first_of post none)
  middle : Chain r.1 none new (first_of post none)
  right : Chain r.1 (last_of none new) post none

module _ (h : ℕ → Page) (f l : ℕ) (fs : List ℕ) (is_last : last_of none (f ∷ fs) ≡ some l)
    (new : Chain h none (f ∷ fs) none) (new_distinct : Distinct (f ∷ fs)) where
  link_last-Joined :
      (c : Connection) (pre post : List ℕ)
      → Chain h none pre (first_of post none)
      → Chain h (last_of none pre) post none
      → Distinct post
      → Apart (f ∷ fs) pre
      → Apart (f ∷ fs) post
      → Apart post pre
      → c.last ≡ last_of none (pre ++ post)
      → Joined c pre (f ∷ fs) post (link_last c h (first_of post none) l)
  unfolding link_last
  link_last-Joined c pre [] left right d new_pre new_post post_pre e = record {
    last_is = sym (
        ap (λ xs. last_of none (pre ++ (f ∷ xs))) (append-nil fs)
        ∙ last_of_cons none pre f fs
        ∙ is_last);
    first_kept = refl;
    left = left;
    middle = new;
    right = tt;
  }
  link_last-Joined c pre (n ∷ ns) left right d new_pre new_post post_pre e =
      let (z, last_z) = last_exists n ns in
      rw (link_last-some c h n l z (e ∙ last_of_cons none pre n ns ∙ last_z)) (record {
        last_is =
            e
            ∙ last_of_cons none pre n ns
            ∙ sym (last_of_cons none pre f (fs ++ (n ∷ ns)) ∙ last_of_cons (some f) fs n ns);
        first_kept = refl;
        left = Chain-set_prev _ n (some l) none pre (some n) post_pre.0 (
            Chain-set_next h l (some n) none pre (some n) (last-Apart f fs pre l is_last new_pre)
              left);
        middle =
            Chain-set_prev _ n (some l) none (f ∷ fs) (some n)
              (Apart-sym (f ∷ fs) (n ∷ ns) new_post).0
              (relink_next h l (some n) none f fs none new_distinct is_last new);
        right = rw is_last (
            relink_prev _ (some l) (last_of none pre) n ns none d.0 (
              Chain-set_next h l (some n) (last_of none pre) (n ∷ ns) none
                (last-Apart f fs (n ∷ ns) l is_last new_post) right));
      })

-- Then the first two are joined.
module _ (c₀ c : Connection) (h : ℕ → Page) (f : ℕ) (fs post : List ℕ) (distinct : NotIn f fs) where
  link_first-Holds :
      (pre : List ℕ)
      → Joined c₀ pre (f ∷ fs) post (c, h)
      → Distinct pre
      → Apart (f ∷ fs) pre
      → Apart post pre
      → NotIn f post
      → c₀.first ≡ first_of (pre ++ post) none
      → let r = link_first c h (last_of none pre) f in Holds r.0 r.1 (pre ++ ((f ∷ fs) ++ post))
  unfolding link_first
  link_first-Holds [] j d new_pre post_pre f_post e = record {
    first_is = refl;
    last_is = j.last_is;
    linked = Chain-append h none (f ∷ fs) post none j.middle j.right;
  }
  link_first-Holds (x ∷ xs) j d new_pre post_pre f_post e =
      let (p, last_p) = last_exists x xs in
      rw (last_p, link_first-some c h p f x (j.first_kept ∙ e))
        (record {
          first_is = j.first_kept ∙ e;
          last_is = j.last_is;
          linked =
              let h1 = set_prev h f (some p) in
              let h2 = set_next h1 p (some f) in
              let p_new = last-Apart x xs (f ∷ fs) p last_p (Apart-sym (f ∷ fs) (x ∷ xs) new_pre) in
              let p_post = last-Apart x xs post p last_p (Apart-sym post (x ∷ xs) post_pre) in
              Chain-append h2 none (x ∷ xs) ((f ∷ fs) ++ post) none
                (relink_next h1 p (some f) none x xs (first_of post none) d last_p
                  (Chain-set_prev h f (some p) none (x ∷ xs) (first_of post none) new_pre.0 j.left))
                (rw last_p (
                  Chain-append h2 (some p) (f ∷ fs) post none
                    (Chain-set_next h1 p (some f) (some p) (f ∷ fs) (first_of post none) p_new
                      (relink_prev h (some p) none f fs (first_of post none) distinct j.middle))
                    (Chain-set_next h1 p (some f) (last_of (some f) fs) post none p_post (
                      Chain-set_prev h f (some p) (last_of (some f) fs) post none f_post
                        j.right))));
        })

-- Pages that are linked to one another, and none of which is in the connection's list, come to stand
-- between any two parts of that list, at its ends too: the list is then doubly linked in that order.
pub push_between-Holds :
    (c : Connection) (h : ℕ → Page) (pre post : List ℕ) (f l : ℕ) (fs : List ℕ)
    → Holds c h (pre ++ post)
    → Chain h none (f ∷ fs) none
    → last_of none (f ∷ fs) ≡ some l
    → Distinct (f ∷ fs)
    → Distinct (pre ++ post)
    → Apart (f ∷ fs) (pre ++ post)
    → let r = push_between c h (last_of none pre) (first_of post none) f l in
      Holds r.0 r.1 (pre ++ ((f ∷ fs) ++ post))
unfolding push_between
push_between-Holds c h pre post f l fs v new is_last new_distinct d far =
    let (left, right) = Chain-split h none pre post none v.linked in
    let new_pre = Apart-left (f ∷ fs) pre post far in
    let new_post = Apart-right (f ∷ fs) pre post far in
    let post_pre = Apart-sym pre post (Distinct-Apart pre post d) in
    let r = link_last c h (first_of post none) l in
    link_first-Holds c r.0 r.1 f fs post new_distinct.0 pre
      (link_last-Joined h f l fs is_last new new_distinct c pre post left right
        (Distinct-right pre post d) new_pre new_post post_pre v.last_is)
      (Distinct-left pre post d) new_pre post_pre new_post.0 v.first_is
