-- ===== src/Client/Confined.antt =====
-- What a client asks for lies in its namespace and is of its resource.
use observability.Base.{◌≡◌, refl, ap, Text}
use observability.Client.Typed.{
  get_request, list_request, watch_request, create_request, update_request, update_status_request,
  delete_request, delete_collection_request, patch_request, methods, update_status, not_nil,
}
use observability.Client.Asked.{Asked, Server}
use observability.Client.Agreement.{
  Call, create_call, update_call, update_status_call, delete_call, delete_collection_call, get_call,
  list_call, watch_call, patch_call, run_client, client_of, object_result, error_result,
  list_result, watch_result,
}

-- Two servers give the same answers about a resource in a namespace.
pub record SameAbout {T W : Type 0} (resource ns : Text) (s t : Server T W) : Type 0 where
  pub objects : (a : Asked T) → a.ns ≡ ns → a.resource ≡ resource → s.objects a ≡ t.objects a
  pub lists : (a : Asked T) → a.ns ≡ ns → a.resource ≡ resource → s.lists a ≡ t.lists a
  pub watches : (a : Asked T) → a.ns ≡ ns → a.resource ≡ resource → s.watches a ≡ t.watches a

-- A client returns the same for two servers that answer alike about its resource in its namespace,
-- for every method with every argument.
pub client_confined :
    {T W : Type 0} (resource ns : Text) (name_of : T → Text) (s t : Server T W)
    → SameAbout resource ns s t
    → (call : Call T)
    → run_client resource ns name_of s call ≡ run_client resource ns name_of t call
unfolding run_client client_of methods update_status get_request list_request watch_request
    create_request update_request update_status_request delete_request delete_collection_request
    patch_request
client_confined resource ns name_of s t same (create_call x) =
    ap (λ x. object_result (not_nil x)) (same.objects _ refl refl)
client_confined resource ns name_of s t same (update_call x) =
    ap (λ x. object_result (not_nil x)) (same.objects _ refl refl)
client_confined resource ns name_of s t same (update_status_call x) =
    ap (λ x. object_result (not_nil x)) (same.objects _ refl refl)
client_confined resource ns name_of s t same (delete_call n o) =
    ap (λ (x, err). error_result err) (same.objects _ refl refl)
client_confined resource ns name_of s t same (delete_collection_call o l) =
    ap (λ (x, err). error_result err) (same.objects _ refl refl)
client_confined resource ns name_of s t same (get_call n o) =
    ap (λ x. object_result (not_nil x)) (same.objects _ refl refl)
client_confined resource ns name_of s t same (list_call l) =
    ap (λ x. list_result (not_nil x)) (same.lists _ refl refl)
client_confined resource ns name_of s t same (watch_call l) =
    ap watch_result (same.watches _ refl refl)
client_confined resource ns name_of s t same (patch_call n pt b subs) =
    ap (λ x. object_result (not_nil x)) (same.objects _ refl refl)
