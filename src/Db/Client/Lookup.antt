-- ===== src/Db/Client/Lookup.antt =====
-- What a look-up through the MySQL client has read when it ends without an exception.
use oj_vibe_coding.Base.{◌≡◌, refl, ◌⊎◌, inl, inr, Bool, true, false, Option, none, some, List}
use oj_vibe_coding.Base.Result.{Exception, Result, ok, err}
use oj_vibe_coding.Text.{Bytes}
use oj_vibe_coding.Base.Effect.{from_result, continue, ◌>>=◌, ◌>>◌}
use oj_vibe_coding.Db.Client.{
  Row, Mysql, Client, Dao, send, throw_error, execute, stored, fetch, select, escape, give_back,
  with_lease, using_lease,
}

pub Result-cases {ℓ κ} :
    {A : Type ℓ} {W : Type κ} (x : Result A × W)
    → ((w : W) × (a : A) × (x ≡ (ok a, w))) ⊎ ((w : W) × (e : Exception) × (x ≡ (err e, w)))
Result-cases (ok a, w) = inl (w, a, refl)
Result-cases (err e, w) = inr (w, e, refl)

rows-cases :
    {W : Type 0} (x : Option (List Row) × W)
    → ((w : W) × (rows : List Row) × (x ≡ (some rows, w))) ⊎ ((w : W) × (x ≡ (none, w)))
rows-cases (some rows, w) = inl (w, rows, refl)
rows-cases (none, w) = inr (w, refl)

done-cases :
    {W : Type 0} (x : Bool × W) → ((w : W) × (x ≡ (true, w))) ⊎ ((w : W) × (x ≡ (false, w)))
done-cases (true, w) = inl (w, refl)
done-cases (false, w) = inr (w, refl)

-- A connection is lent, the query about the escaped text succeeds, and its rows are fetched; `lent`,
-- `asked` and `read` are the server after each of these calls.
pub record Looked (m : Mysql) (about : Bytes → Bytes) (text : Bytes) (c : Client m)
    (rows : List Row) : Type 0 where
  pub lent : m.Server
  pub asked : m.Server
  pub read : m.Server
  pub connected : m.acquire c.server ≡ (ok tt, lent)
  pub queried : m.query (about (m.escape lent text)) lent ≡ (true, asked)
  pub found : m.store_result asked ≡ (some rows, read)

module _ (m : Mysql) (about : Bytes → Bytes) (context store_context : Bytes) where
  -- The shape of every look-up by a text.
  abbrev pub looking_up : {A : Type 0} → (List Row → Result A) → Bytes → Dao m A
  looking_up read text = using_lease m (do
    text_esc ← escape m text
    rows ← select m (about text_esc) context store_context
    from_result (read rows))

  pub looking_up-eq-ok :
      {A : Type 0} (read : List Row → Result A) (text : Bytes) (c : Client m) (a : A)
      → (looking_up read text c).0 ≡ ok a
      → (rows : List Row) × Looked m about text c rows × (read rows ≡ ok a)
  unfolding using_lease with_lease give_back escape select execute send fetch stored throw_error
      ◌>>=◌ ◌>>◌ continue
  looking_up-eq-ok read text c a e = elim (Result-cases (m.acquire c.server)) [
    | inr (s, x, denied) ↦ cc (rw denied at e)
    | inl (s, u, lent) ↦ elim (done-cases (m.query (about (m.escape s text)) s)) [
      | inr (t, failed) ↦ cc (rw (lent, failed) at e)
      | inl (t, sent_ok) ↦ elim (rows-cases (m.store_result t)) [
        | inr (v, no_result) ↦ cc (rw (lent, sent_ok, no_result) at e)
        | inl (v, rows, found_rows) ↦ (
          rows,
          record {
            lent = s;
            asked = t;
            read = v;
            connected = lent;
            queried = sent_ok;
            found = found_rows;
          },
          rw (lent, sent_ok, found_rows) at e,
        )
      ]
    ]
  ]
