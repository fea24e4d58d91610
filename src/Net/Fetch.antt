-- ===== src/Net/Fetch.antt =====
-- entities/auth/api/authenticated-fetch.ts. The signed-in user, its token and the network are
-- parameters; a promise that rejects is `none`.
use link_lynx_ai.Common.{ℕ, String, Bool, Option, none, some}
use link_lynx_ai.Net.Json.{Json}

pub record Response : Type 0 where
  pub ok : Bool
  pub status : ℕ
  -- The parsed body, or `none` where reading or parsing it throws.
  pub body : Option Json

pub record Request : Type 0 where
  pub method : String
  pub url : String
  pub authorization : String

-- `getFirebaseAuth().currentUser`, `getIdToken` and `fetch`.
pub record Network : Type 0 where
  pub current_user : Option (Bool → Option String)
  pub fetch : Request → Option Response

pub data FetchErrorCode : Type 0 where
  unauthenticated token_unavailable network_request_failed : FetchErrorCode

pub data FetchResult : Type 0 where
  fetched : Response → FetchResult
  failed : FetchErrorCode → FetchResult

abbrev fetch_with : (Request → Option Response) → String → String → Option String → FetchResult
fetch_with fetch method url none = failed token_unavailable
fetch_with fetch method url (some id_token) =
    elim (fetch (record { method = method; url = url; authorization = id_token })) [
      | none ↦ failed network_request_failed
      | some response ↦ fetched response
    ]

abbrev fetch_as :
    (Request → Option Response)
    → String
    → String
    → Bool
    → Option (Bool → Option String)
    → FetchResult
fetch_as fetch method url force_refresh none = failed unauthenticated
fetch_as fetch method url force_refresh (some get_id_token) =
    fetch_with fetch method url (get_id_token force_refresh)

unfoldable pub authenticated_fetch : Network → String → String → Bool → FetchResult
authenticated_fetch net method url force_refresh =
    fetch_as net.fetch method url force_refresh net.current_user

abbrev pub fetch_error_message : FetchErrorCode → String
fetch_error_message unauthenticated = "ログイン中のユーザーが見つかりません。"
fetch_error_message token_unavailable = "IDトークンの取得に失敗しました。"
fetch_error_message network_request_failed = "認証APIへの接続に失敗しました。"
