-- ===== src/OnePassword/Connected.antt =====
-- backend/onepassword/onepassword.go: the requests of the methods, each through `call`: those that only
-- read may be run again, and those that write may not.
use ts1p.Prelude.{true, false, text}
use ts1p.Backend.{without_cancel}
use ts1p.OnePassword.{Items}
use ts1p.OnePassword.Client.{Client, Environment, Backoff, call}

module _ {V : Type 0} (env : Environment) (backoff : Backoff V) (sdk : Items V) where
  -- The SDK's items API behind `call`. The request's own context is not that of the caller. Load and Save
  -- share `get_item`: its label is Load's, and Save's own, "getting item for update", is not told apart.
  unfoldable pub connected : Items (Client V)
  connected = record {
    list_items = λ ctx.
        call env backoff (text "listing items") true ctx (sdk.list_items (without_cancel ctx));
    get_item = λ ctx id.
        call env backoff (text "getting item") true ctx (sdk.get_item (without_cancel ctx) id);
    put_item = λ ctx item.
        call env backoff (text "updating item") false ctx (sdk.put_item (without_cancel ctx) item);
    create_item = λ ctx name fields.
        call env backoff (text "creating item") false ctx
          (sdk.create_item (without_cancel ctx) name fields);
    delete_item = λ ctx id.
        call env backoff (text "deleting item") false ctx (sdk.delete_item (without_cancel ctx) id);
  }
