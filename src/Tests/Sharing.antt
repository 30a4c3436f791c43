-- ===== src/Tests/Sharing.antt =====
-- apps/api/src/resolvers/sharing.ts on a share with two views.
use ddrive.Prelude.{ℕ, ◌≡◌, refl, true, false, List, [], ◌∷◌, none, some, find, arith}
use ddrive.Prelude.Texts.{codes}
use ddrive.Prelude.Tables.{update_many}
use ddrive.Storage.Rows.{ok}
use ddrive.Database.Rows.{Share, Db}
use ddrive.Database.Cascades.{update_share, update_file}
use ddrive.Resolvers.Sharing.{
  find_share, check_access, grant_access, access_share, resolve_share_for_page, claim_share,
}
use ddrive.Resolvers.Sharing.Managing.{revoke_share}
use ddrive.Resolvers.Sharing.Views.{
  Attempt, ticket_of, serve, answers, Verdicts, none_left, granted, refused, answers-serve,
}
use ddrive.Resolvers.Sharing.Opening.{Admitted}
use ddrive.Resolvers.Sharing.Access.{Claimed, claim_share-Claimed}
use ddrive.Tests.Database.{hashing, letter, photo, photo_share, tables}

abbrev attempts : List Attempt
attempts = ("t", 5) ∷ ("wrong", 6) ∷ ("t", 7) ∷ ("t", 8) ∷ []

two_of_four : (answers hashing "s1" attempts tables).0 ≡ true ∷ false ∷ true ∷ false ∷ []
unfolding answers access_share update_share update_many find codes
two_of_four = refl

share_found : find_share "s1" tables ≡ some photo_share
unfolding find
share_found = refl

right_token : (now : ℕ) → Admitted hashing now "t" photo_share
right_token now = record {
  is_active = refl;
  in_time = λ t e. absurd (let bad : none ≡ some t = e in cc);
  token = refl;
}

wrong_token : ¬ Admitted hashing 6 "wrong" photo_share
unfolding codes
wrong_token a = let bad = a.token in absurd (ground (arith, bad))

abbrev verdicts : Verdicts hashing photo_share attempts (true ∷ false ∷ true ∷ true ∷ [])
verdicts =
    granted (right_token 5)
      (refused wrong_token (granted (right_token 7) (granted (right_token 8) none_left)))

answers-serve_example :
    ((answers hashing "s1" attempts tables).0
      ≡ (serve (true ∷ false ∷ true ∷ true ∷ []) (ticket_of photo_share)).0)
    × ((s' : Share) × (find_share "s1" (answers hashing "s1" attempts tables).1 ≡ some s')
        × (ticket_of s' ≡ (serve (true ∷ false ∷ true ∷ true ∷ []) (ticket_of photo_share)).1))
answers-serve_example =
    answers-serve hashing "s1" attempts (true ∷ false ∷ true ∷ true ∷ []) tables photo_share
      share_found verdicts

abbrev last_view : Db
last_view = record tables { shares = record photo_share { max_views = some 1 } ∷ [] }

abbrev first_answered : Db
first_answered = (grant_access hashing "s1" (record photo_share { max_views = some 1 }) last_view).1

-- Two accesses at once pass the checks before either counts its view: of a share with one view left,
-- two are counted.
two_at_once :
    (check_access hashing "s1" "t" 5 last_view ≡ some (record photo_share { max_views = some 1 }))
    × ((grant_access hashing "s1"
          (record photo_share { max_views = some 1 })
          first_answered).1.shares
        ≡ record photo_share { max_views = some 1; view_count = 2 } ∷ [])
unfolding check_access grant_access update_share update_many find codes
two_at_once = (refl, refl)

revoked_ok : (revoke_share "u1" "s1" 9 tables).0 ≡ ok true
unfolding revoke_share find
revoked_ok = refl

-- The file of an account, claimed by another account that holds the link.
claimed_by_stranger :
    (claim_share hashing "u2" "s1" "t" 5 tables).1.files
    ≡ record photo { owner_user_id = "u2"; updated_at = 5 } ∷ letter ∷ []
unfolding claim_share resolve_share_for_page update_file update_many find codes
claimed_by_stranger = refl

claim_share-Claimed_example : Claimed hashing "u2" "s1" "t" 5 tables "f2"
claim_share-Claimed_example = claim_share-Claimed hashing "u2" "s1" "t" 5 tables "f2"
