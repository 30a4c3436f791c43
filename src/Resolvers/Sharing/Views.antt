-- ===== src/Resolvers/Sharing/Views.antt =====
-- apps/api/src/resolvers/sharing.ts: how often a share can be opened.
use ddrive.Prelude.{
  ℕ, zero, suc, ◌+◌, ◌-◌, ◌≡◌, refl, ap, ap₂, ◌∙◌, sym, subst, All, length, min, inl, inr, Bool,
  true, false, List, [], ◌∷◌, Option, none, some, String, map, arith, str_eq, if◌then◌else◌,
  Bool-cases,
}
use ddrive.Storage.Rows.{Result, ok}
use ddrive.Database.Rows.{Share, Db}
use ddrive.Database.Keys.{find-passes, find-update_many}
use ddrive.Database.Cascades.{update_share}
use ddrive.Resolvers.Sharing.{Hashing, ShareAccess, find_share, opens, count_view, access_share}
use ddrive.Resolvers.Sharing.Opening.{Admitted, admits, admits-Admitted, Admitted-admits}

-- The views that are left: without a limit, none is counted.
abbrev pub Ticket : Type 0
Ticket = Option ℕ

-- A request uses the ticket up by one, unless it is not to be answered or none is left.
abbrev pub use_ticket : Bool → Ticket → Bool × Ticket
use_ticket false t = (false, t)
use_ticket true none = (true, none)
use_ticket true (some zero) = (false, some zero)
use_ticket true (some (suc n)) = (true, some n)

unfoldable pub serve : List Bool → Ticket → List Bool × Ticket
serve [] t = ([], t)
serve (b ∷ bs) t =
    let (answer, t') = use_ticket b t in let (answers, t'') = serve bs t' in (answer ∷ answers, t'')

abbrev pub ticket_of : Share → Ticket
ticket_of s = elim s.max_views [ none ↦ none | some m ↦ some (m - s.view_count) ]

abbrev pub count : List Bool → ℕ
count [] = 0
count (b ∷ bs) = (if b then 1 else 0) + count bs

-- A token that is presented, and when.
abbrev pub Attempt : Type 0
Attempt = String × ℕ

abbrev pub is_answered : Result (Option ShareAccess) → Bool
is_answered (ok (some a)) = true
is_answered _ = false

module _ (h : Hashing) where
  abbrev judge : Share → Attempt → Bool
  judge s a = admits h a.1 a.0 s

  -- Which of the accesses to a share are answered, when each is over before the next begins.
  unfoldable pub answers : String → List Attempt → Db → List Bool × Db
  answers share_id [] db = ([], db)
  answers share_id ((token, now) ∷ attempts) db =
      let (r, db') = access_share h share_id token now db in
      let (bs, db'') = answers share_id attempts db' in (is_answered r ∷ bs, db'')

  find-update_share :
      (share_id : String) (f : Share → Share) (db : Db) (s : Share)
      → ((f s).share_id ≡ s.share_id)
      → find_share share_id db ≡ some s
      → find_share share_id (update_share share_id f db) ≡ some (f s)
  unfolding update_share
  find-update_share share_id f db s e found =
      find-update_many (λ (x : Share). str_eq x.share_id share_id) f db.shares s
        (ground
          (arith, e, find-passes (λ (x : Share). str_eq x.share_id share_id) db.shares s found))
        found

  -- One access: the ticket of the share is used as its checks say.
  record Used (share_id token : String) (now : ℕ) (db : Db) (s s' : Share) : Type 0 where
    found : find_share share_id (access_share h share_id token now db).1 ≡ some s'
    same : (a : Attempt) → admits h a.1 a.0 s' ≡ admits h a.1 a.0 s
    answer :
        is_answered (access_share h share_id token now db).0
        ≡ (use_ticket (admits h now token s) (ticket_of s)).0
    left : ticket_of s' ≡ (use_ticket (admits h now token s) (ticket_of s)).1

  access_share-Used :
      (share_id token : String) (now : ℕ) (db : Db) (s : Share)
      → find_share share_id db ≡ some s
      → (s' : Share) × Used share_id token now db s s'
  unfolding access_share
  access_share-Used share_id token now db s found = elim (Bool-cases (opens h now token s)) [
    | inl e ↦ (
      count_view h s,
      record {
        found =
            rw (found, access_share, e) (find-update_share share_id (count_view h) db s refl found);
        same = λ a. refl;
        answer = ground (arith, found, e);
        left = ground (arith, found, e);
      },
    )
    | inr e ↦ (
      s,
      record {
        found = rw (found, access_share, e) found;
        same = λ a. refl;
        answer = ground (arith, found, e);
        left = ground (arith, found, e);
      },
    )
  ]

  map_same :
      (s s' : Share)
      → ((a : Attempt) → admits h a.1 a.0 s' ≡ admits h a.1 a.0 s)
      → (attempts : List Attempt) → map (judge s') attempts ≡ map (judge s) attempts
  map_same s s' e [] = refl
  map_same s s' e (a ∷ attempts) = ap₂ (λ x xs. x ∷ xs) (e a) (map_same s s' e attempts)

  answers-judged :
      (share_id : String) (attempts : List Attempt) (db : Db) (s : Share)
      → find_share share_id db ≡ some s
      → ((answers share_id attempts db).0 ≡ (serve (map (judge s) attempts) (ticket_of s)).0)
        × ((s' : Share) × (find_share share_id (answers share_id attempts db).1 ≡ some s')
            × (ticket_of s' ≡ (serve (map (judge s) attempts) (ticket_of s)).1))
  unfolding answers serve
  answers-judged share_id [] db s found = (refl, (s, found, refl))
  answers-judged share_id ((token, now) ∷ attempts) db s found =
      let (s', used) = access_share-Used share_id token now db s found in
      let (bs, (s'', found'', left)) =
        answers-judged share_id attempts (access_share h share_id token now db).1 s' used.found in
      let same : serve (map (judge s') attempts) (ticket_of s')
          ≡ serve (map (judge s) attempts) (use_ticket (admits h now token s) (ticket_of s)).1 =
        ap₂ serve (map_same s s' used.same attempts) used.left in
      (
        ap₂ (λ x (xs : List Bool). x ∷ xs) used.answer (bs ∙ ap (λ x. x.0) same),
        (s'', found'', left ∙ ap (λ x. x.1) same),
      )

  -- For each access, whether the share is active, not past its end at the time of the access, and has
  -- the token that is presented.
  pub data Verdicts (s : Share) : List Attempt → List Bool → Type 0 where
    none_left : Verdicts s [] []
    granted :
        {token : String} {now : ℕ} {attempts : List Attempt} {bs : List Bool}
        → Admitted h now token s
        → Verdicts s attempts bs
        → Verdicts s ((token, now) ∷ attempts) (true ∷ bs)
    refused :
        {token : String} {now : ℕ} {attempts : List Attempt} {bs : List Bool}
        → ¬ Admitted h now token s
        → Verdicts s attempts bs
        → Verdicts s ((token, now) ∷ attempts) (false ∷ bs)

  Verdicts-judge :
      (s : Share) {attempts : List Attempt} {bs : List Bool}
      → Verdicts s attempts bs
      → map (judge s) attempts ≡ bs
  Verdicts-judge s none_left = refl
  Verdicts-judge s (granted {token} {now} a v) =
      ap₂ (λ x (xs : List Bool). x ∷ xs) (Admitted-admits h now token s a) (Verdicts-judge s v)
  Verdicts-judge s (refused {token} {now} a v) =
      ap₂ (λ x (xs : List Bool). x ∷ xs)
        (elim (Bool-cases (admits h now token s)) [
          | inl e ↦ absurd (a (admits-Admitted h now token s e))
          | inr e ↦ e
        ])
        (Verdicts-judge s v)

  -- When each access to a share is over before the next begins: an access is answered exactly if
  -- the share is active, its end has not passed, the token is its token, and fewer accesses were
  -- answered than views were left at first, if they are limited; and so many views fewer are left
  -- at the end.
  pub answers-serve :
      (share_id : String) (attempts : List Attempt) (bs : List Bool) (db : Db) (s : Share)
      → find_share share_id db ≡ some s
      → Verdicts s attempts bs
      → ((answers share_id attempts db).0 ≡ (serve bs (ticket_of s)).0)
        × ((s' : Share) × (find_share share_id (answers share_id attempts db).1 ≡ some s')
            × (ticket_of s' ≡ (serve bs (ticket_of s)).1))
  answers-serve share_id attempts bs db s found v =
      subst
        (λ x.
          ((answers share_id attempts db).0 ≡ (serve x (ticket_of s)).0)
          × ((s' : Share) × (find_share share_id (answers share_id attempts db).1 ≡ some s')
              × (ticket_of s' ≡ (serve x (ticket_of s)).1)))
        (Verdicts-judge s v) (answers-judged share_id attempts db s found)

  count_serve :
      (attempts : List Attempt) (s : Share) (n : ℕ)
      → All (λ a. judge s a ≡ true) attempts
      → count (serve (map (judge s) attempts) (some n)).0 ≡ min n (length attempts)
  unfolding serve
  count_serve [] s n ok_all = omega arith
  count_serve (a ∷ attempts) s zero (e, ok_all) =
      ground (arith, e, count_serve attempts s zero ok_all)
  count_serve (a ∷ attempts) s (suc n) (e, ok_all) =
      ground (arith, e, count_serve attempts s n ok_all)

  -- Of accesses to a share with a limit of views, all of which its status, its end and its token admit,
  -- as many are answered as views are left, or all of them if they are not more.
  pub count-answers :
      (share_id : String) (attempts : List Attempt) (db : Db) (s : Share) (limit : ℕ)
      → find_share share_id db ≡ some s
      → s.max_views ≡ some limit
      → All (λ a. judge s a ≡ true) attempts
      → count (answers share_id attempts db).0 ≡ min (limit - s.view_count) (length attempts)
  count-answers share_id attempts db s limit found limited ok_all =
      ap count (answers-judged share_id attempts db s found).0
      ∙ subst
          (λ t.
            count (serve (map (judge s) attempts) t).0
            ≡ min (limit - s.view_count) (length attempts))
          (sym (ground (arith, limited))) (count_serve attempts s (limit - s.view_count) ok_all)
