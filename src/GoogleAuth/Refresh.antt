-- ===== src/GoogleAuth/Refresh.antt =====
-- The refresh token of an account, the only copy of which is in its token file, is never lost
-- (internal/googleauth/googleauth.go).
use mathlib.Core.Path.{subst}
use calendar_bridge.Base.{
  ◌≡◌, ◌≢◌, refl, sym, ◌∙◌, String, ◌<>◌, inl, inr, Option, some, List, [], ◌∷◌, Bool-cases,
  string_eq, arith,
}
use calendar_bridge.Effect.{Result, ok, err}
use calendar_bridge.Disk.{Machine, Outcome, returned, died, Survives}
use calendar_bridge.AtomicFile.{Paths, temp_path, owner_only}
use calendar_bridge.AtomicFile.Crash.{write-Survives}
use calendar_bridge.GoogleAuth.Tokens.{Token, token_changed, TokenCodec, save_encoded, save_token}
use calendar_bridge.GoogleAuth.Source.{Cache, to_save, note_saved, token, next_tokens, tokens}

module _ (codec : TokenCodec) (paths : Paths) (path : String) where
  -- What can be read of the file is a token with a refresh token.
  pub data IsRefreshable : Option String → Type 0 where
    refreshable :
        (text : String) (tok : Token)
        → codec.decode text ≡ some tok
        → tok.refresh_token ≢ ""
        → IsRefreshable (some text)

  -- So it is whenever the machine crashes now, and the token that was written last has one as well.
  pub record IsKept (c : Cache) : Type 0 where
    pub last : (tok : Token) × (c.last ≡ some tok) × (tok.refresh_token ≢ "")
    pub file : (text : Option String) → Survives c.machine.disk path text → IsRefreshable text

  to_save-refresh :
      (old tok : Token) → old.refresh_token ≢ "" → (to_save (some old) tok).refresh_token ≢ ""
  unfolding to_save
  to_save-refresh old tok set empty = ground arith

  module _
      (round : (tok : Token) (text : String)
        → codec.encode tok ≡ ok text
        → (back : Token) × (codec.decode (text <> "\n") ≡ some back)
          × (back.refresh_token ≡ tok.refresh_token))
      (other : (suffix : String) → temp_path paths path suffix ≢ path) where
    save_encoded-file :
        (tok : Token) (encoded : Result String) (m : Machine)
        → tok.refresh_token ≢ ""
        → codec.encode tok ≡ encoded
        → ((text : Option String) → Survives m.disk path text → IsRefreshable text)
        → (text : Option String)
        → Survives (save_encoded codec paths path encoded m).1.disk path text
        → IsRefreshable text
    unfolding save_encoded
    save_encoded-file tok (err e) m set same before text left = before text left
    save_encoded-file tok (ok data_text) m set same before text left =
        elim (write-Survives paths path (data_text <> "\n") owner_only m text other left) [
          | inl new ↦
              let (back, decoded, kept) = round tok data_text same in
              subst IsRefreshable (sym new)
                (refreshable (data_text <> "\n") back decoded (λ empty. set (sym kept ∙ empty)))
          | inr (old, _) ↦ before text old
        ]

    note_saved-IsKept :
        (tok saved : Token) (last : Option Token) (r : Outcome (Unit {0}) × Machine)
        → saved.refresh_token ≢ ""
        → ((old : Token) × (last ≡ some old) × (old.refresh_token ≢ ""))
        → ((text : Option String) → Survives r.1.disk path text → IsRefreshable text)
        → IsKept (note_saved codec paths path tok saved last r).1
    unfolding note_saved
    note_saved-IsKept tok saved last (returned (ok _), m) set had file = record {
      last = (saved, refl, set);
      file = file;
    }
    note_saved-IsKept tok saved last (returned (err e), m) set had file = record {
      last = had;
      file = file;
    }
    note_saved-IsKept tok saved last (died, m) set had file = record { last = had; file = file }

    to_save-kept :
        (last : Option Token) (tok : Token)
        → ((old : Token) × (last ≡ some old) × (old.refresh_token ≢ ""))
        → (to_save last tok).refresh_token ≢ ""
    to_save-kept last tok (old, same, set) = rw same (to_save-refresh old tok set)

    token-IsKept : (r : Result Token) (c : Cache) → IsKept c → IsKept (token codec paths path r c).1
    unfolding token save_token
    token-IsKept (err e) c kept = kept
    token-IsKept (ok tok) c kept = elim (Bool-cases (token_changed c.last tok)) [
      | inl new ↦ rw new (
          note_saved-IsKept tok (to_save c.last tok) c.last _ (to_save-kept c.last tok kept.last)
            kept.last
            (save_encoded-file (to_save c.last tok) _ c.machine (to_save-kept c.last tok kept.last)
              refl kept.file))
      | inr same ↦ rw same kept
    ]

    next_tokens-IsKept :
        (rest : Cache → Cache) (r : Outcome Token × Cache)
        → ((c : Cache) → IsKept c → IsKept (rest c))
        → IsKept r.1
        → IsKept (next_tokens rest r)
    unfolding next_tokens
    next_tokens-IsKept rest (returned x, c) next kept = next c kept
    next_tokens-IsKept rest (died, c) next kept = kept

    -- Whatever the token source answers, wherever the writes of the token file fail and whenever the
    -- machine crashes in one: if a token with a refresh token can be read from the file, and the last
    -- one written has a refresh token, then it is so after any number of calls of `Token`; if a refresh
    -- token comes back from the JSON that was made of its token, and no temporary file has the path for its name.
    pub tokens-IsKept :
        (answers : List (Result Token)) (c : Cache)
        → IsKept c
        → IsKept (tokens codec paths path answers c)
    unfolding tokens
    tokens-IsKept [] c kept = kept
    tokens-IsKept (r ∷ answers) c kept =
        next_tokens-IsKept (tokens codec paths path answers) (token codec paths path r c)
          (tokens-IsKept answers) (token-IsKept r c kept)
