-- ===== src/Url.antt =====
-- The parts of net/url that the gateway uses. Parsing, resolving and printing are the standard
-- library's, and enter as the record `UrlLib`.
use vial_gateway.Prelude.{Bool, Option}
use vial_gateway.Text.{Text}

-- url.URL; `user` says whether userinfo is present
pub record Url : Type 0 where
  pub scheme : Text
  pub has_user : Bool
  pub host : Text
  pub path : Text
  pub raw_path : Text
  pub raw_query : Text
  pub fragment : Text

pub record UrlLib : Type 0 where
  -- url.Parse; `none` is an error
  pub parse : Text → Option Url
  -- base.ResolveReference(ref)
  pub resolve : Url → Url → Url
  -- u.String()
  pub to_string : Url → Text
  -- strings.EqualFold, by which hosts are compared
  pub equal_fold : Text → Text → Bool
