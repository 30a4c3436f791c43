-- ===== src/Resolvers/Accounts/Registered.antt =====
-- apps/api/src/resolvers/auth.ts: the rows that a registration adds.
use ddrive.Prelude.{
  ℕ, ◌≡◌, inl, inr, ◌||◌, [], ◌∷◌, ◌++◌, none, some, String, str_eq, find, Option-cases, arith,
  str_eq_refl,
}
use ddrive.Database.Updates.{find-append, find-none_stronger, find-none_either}
use ddrive.Storage.Rows.{ok, Result-cases}
use ddrive.Resolvers.Accounts.{
  Accounts, User, EmailVerification, Outside, find_user, user_by_email, holds_text, add_row,
  add_row-ok,
}
use ddrive.Resolvers.Accounts.Registration.{
  RegisterRequest, Drawn, new_user, new_verification, issue_verification, answers_to, register,
  send,
}

module _ (o : Outside) where
  pub record Issued (u : User) (raw_token row_id : String) (now : ℕ) (w w' : Accounts)
      : Type 0 where
    verifications :
        w'.verifications ≡ w.verifications ++ new_verification o u.id raw_token row_id now ∷ []
    users : w'.users ≡ w.users
    fresh :
        find
          (λ (v : EmailVerification).
            str_eq v.token_hash (o.hashing.sha256_hex raw_token) || str_eq v.id row_id)
          w.verifications
        ≡ none

  pub issue_verification-Issued :
      (u : User) (raw_token row_id : String) (now : ℕ) (w : Accounts)
      → (issue_verification o u raw_token row_id now w).0 ≡ ok tt
      → Issued u raw_token row_id now w (issue_verification o u raw_token row_id now w).1
  unfolding issue_verification send
  issue_verification-Issued u raw_token row_id now w e =
      let row = new_verification o u.id raw_token row_id now in
      let taken = (λ (v : EmailVerification).
        str_eq v.token_hash (o.hashing.sha256_hex raw_token) || str_eq v.id row_id) in
      elim (Result-cases (add_row taken row w.verifications)) [
        | inl (rows, t) ↦
            let (free, same) = add_row-ok taken row w.verifications rows t in
            record {
              verifications = ground (arith, t, same);
              users = ground (arith, t);
              fresh = free;
            }
        | inr (x, t) ↦ absurd (ground (arith, e, t))
      ]

  -- What a registration leaves.
  pub record Registered (input : RegisterRequest) (drawn : Drawn) (now : ℕ) (w w' : Accounts)
      : Type 0 where
    pub users : w'.users ≡ w.users ++ new_user o input drawn now ∷ []
    pub verifications :
        w'.verifications
        ≡ w.verifications ++ new_verification o drawn.user_id drawn.raw_token drawn.row_id now ∷ []
    pub new_email : user_by_email input.email w.users ≡ none
    pub new_id : find_user drawn.user_id w.users ≡ none
    pub new_token :
        find
          (λ (v : EmailVerification). str_eq v.token_hash (o.hashing.sha256_hex drawn.raw_token))
          w.verifications
        ≡ none

  pub register-Registered :
      (input : RegisterRequest) (drawn : Drawn) (now : ℕ) (w : Accounts) (email : String)
      → (register o input drawn now w).0 ≡ ok email
      → Registered input drawn now w (register o input drawn now w).1
  unfolding register
  register-Registered input drawn now w email e =
      let user = new_user o input drawn now in
      elim (Option-cases (user_by_email input.email w.users)) [
        | inr (u, t1) ↦ absurd (ground (arith, e, t1))
        | inl t1 ↦
            elim (Option-cases
              (find (λ (u : User). holds_text u.username input.username) w.users)) [
                | inr (u, t2) ↦ absurd (ground (arith, e, t1, t2))
                | inl t2 ↦
                    elim (Result-cases
                      (add_row (λ (u : User). str_eq u.id drawn.user_id) user w.users)) [
                        | inr (x, t3) ↦ absurd (ground (arith, e, t1, t2, t3))
                        | inl (users, t3) ↦
                            let (free, same) =
                              add_row-ok (λ (u : User). str_eq u.id drawn.user_id) user w.users
                                users t3 in
                            let w0 : Accounts = record w { users = users } in
                            elim (Result-cases
                              (issue_verification o user drawn.raw_token drawn.row_id now w0).0) [
                                | inr (x, t4) ↦ absurd (ground (arith, e, t1, t2, t3, t4))
                                | inl (done, t4) ↦
                                    let i =
                                      issue_verification-Issued user drawn.raw_token drawn.row_id
                                        now w0 t4 in
                                    record {
                                      users = ground (arith, t1, t2, t3, t4, i.users, same);
                                      verifications =
                                          ground (arith, t1, t2, t3, t4, i.verifications);
                                      new_email = t1;
                                      new_id = free;
                                      new_token =
                                          find-none_stronger
                                            (λ (v : EmailVerification).
                                              str_eq v.token_hash
                                                (o.hashing.sha256_hex drawn.raw_token)
                                              || str_eq v.id drawn.row_id)
                                            (λ v.
                                              str_eq v.token_hash
                                                (o.hashing.sha256_hex drawn.raw_token))
                                            w.verifications (λ r k. ground (arith, k)) i.fresh;
                                    }
                              ]
                      ]
              ]
      ]

  -- The rows that a registration added are found.
  pub Registered-found :
      (input : RegisterRequest) (drawn : Drawn) (now : ℕ) (w w' : Accounts)
      → Registered input drawn now w w'
      → find (λ (u : User). holds_text u.username input.email) w.users ≡ none
      → (find (answers_to input.email) w'.users ≡ some (new_user o input drawn now))
        × (find_user drawn.user_id w'.users ≡ some (new_user o input drawn now))
        × (find
              (λ (v : EmailVerification).
                str_eq v.token_hash (o.hashing.sha256_hex drawn.raw_token))
              w'.verifications
            ≡ some (new_verification o drawn.user_id drawn.raw_token drawn.row_id now))
  unfolding find
  Registered-found input drawn now w w' r other =
      let u = new_user o input drawn now in
      let v = new_verification o drawn.user_id drawn.raw_token drawn.row_id now in
      let unknown =
        find-none_either (λ (x : User). str_eq x.email input.email)
          (λ x. holds_text x.username input.email) w.users r.new_email other in
      (
        ground (
          arith,
          r.users,
          find-append (answers_to input.email) w.users (u ∷ []) unknown,
          str_eq_refl input.email,
        ),
        ground (
          arith,
          r.users,
          find-append (λ (x : User). str_eq x.id drawn.user_id) w.users (u ∷ []) r.new_id,
          str_eq_refl drawn.user_id,
        ),
        ground (
          arith,
          r.verifications,
          find-append
              (λ (x : EmailVerification).
                str_eq x.token_hash (o.hashing.sha256_hex drawn.raw_token))
              w.verifications (v ∷ []) r.new_token,
          str_eq_refl (o.hashing.sha256_hex drawn.raw_token),
        ),
      )
