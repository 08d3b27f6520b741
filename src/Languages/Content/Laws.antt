-- ===== src/Languages/Content/Laws.antt =====
-- What `isJson` of web/src/lib/languages.ts takes for JSON, against compact JSON texts.
use haste_server.Prelude.{◌≡◌, true}
use haste_server.Languages.Json.Printing.{
  Items, no_items, item, Members, no_members, member, list_of, record_of, print, parses-print,
}
use haste_server.Languages.Content.{is_json}

-- Every array and every object, however deep it is and whatever strings it holds, is taken for JSON,
-- printed without white space.
pub is_json-print :
    (items : Items) (members : Members)
    → (is_json (print (list_of items)) ≡ true) × (is_json (print (record_of members)) ≡ true)
is_json-print items members = (of_list items, of_record members)
  where
    of_list : (xs : Items) → is_json (print (list_of xs)) ≡ true
    of_list no_items = unfold is_json print in parses-print (list_of no_items)
    of_list (item v rest) = unfold is_json print in parses-print (list_of (item v rest))

    of_record : (ms : Members) → is_json (print (record_of ms)) ≡ true
    of_record no_members = unfold is_json print in parses-print (record_of no_members)
    of_record (member k v rest) = unfold is_json print in parses-print (record_of (member k v rest))
