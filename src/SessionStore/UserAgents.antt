-- ===== src/SessionStore/UserAgents.antt =====
-- `parseUserAgent` of server/src/lib/userAgent.ts. A regular expression of words is a test for each of
-- them: `android.*mobile` has the word `mobile`, and `android(?!.*mobile)` is reached without it.

use home_gate.Environment.{Environment}
use home_gate.Common.{
  String, Bool, not, ◌&&◌, ◌||◌, Option, none, some, ◌==◌, if◌then◌else◌, is_some, nat_eq,
  string_eq,
}
use text.Mathlib.Text.{find?}

abbrev pub includes : String → String → Bool
includes text word = is_some (find? text word)

-- The device class of a text in lower case.
pub device_class : String → String
device_class ua =
    if includes ua "mobile" || includes ua "iphone" || includes ua "windows phone"
    then "Mobile"
    else if includes ua "ipad" || includes ua "tablet" || includes ua "android"
    then "Tablet"
    else if includes ua "bot"
        || includes ua "crawler"
        || includes ua "spider"
        || includes ua "curl"
        || includes ua "wget"
        || includes ua "postman"
    then "Bot"
    else "Desktop"

pub browser_name : String → Option String
browser_name ua =
    if includes ua "edg/"
    then some "Edge"
    else if includes ua "chrome/" && not (includes ua "chromium")
    then some "Chrome"
    else if includes ua "firefox/"
    then some "Firefox"
    else if includes ua "safari/" && not (includes ua "chrome/")
    then some "Safari"
    else if includes ua "opr/" || includes ua "opera"
    then some "Opera"
    else none

-- `!userAgent`: both are null then.
pub device_of : Environment → Option String → Option String
unfolding device_class
device_of env none = none
device_of env (some text) =
    if text == "" then none else some (device_class (env.to_lower_case text))

pub browser_of : Environment → Option String → Option String
unfolding browser_name
browser_of env none = none
browser_of env (some text) = if text == "" then none else browser_name (env.to_lower_case text)
