-- ===== src/MockData/People.antt =====
-- client/src/features/wavecast/mock-data.ts, the people.
use wave_cast.Common.{ℕ, String, true, false, none, some, List, [], ◌∷◌, get_or}
use Prim.Native.String.{◌++◌}
use wave_cast.Types.{Person, host, speaker, listener, moderator}

-- The argument is the picture's number as the template literal prints it.
abbrev avatar : String → String
avatar id = "https://i.pravatar.cc/160?img=" ++ id

abbrev pub alex : Person
alex = record {
  id = "user_brian";
  name = "Brian Miller";
  username = "brian.miller";
  role = host;
  avatar = avatar "12";
  is_friend = none;
  online = some true;
  is_speaking = none;
}

abbrev alice : Person
alice = record {
  id = "user_alice";
  name = "Alice Johnson";
  username = "alice.johnson";
  role = host;
  avatar = avatar "47";
  is_friend = some true;
  online = some true;
  is_speaking = some true;
}

abbrev brian : Person
brian = record {
  id = "user_brian";
  name = "Brian Miller";
  username = "brian.miller";
  role = speaker;
  avatar = avatar "12";
  is_friend = some true;
  online = some true;
  is_speaking = some false;
}

abbrev carol : Person
carol = record {
  id = "user_carol";
  name = "Carol Davis";
  username = "carol.davis";
  role = speaker;
  avatar = avatar "32";
  is_friend = some true;
  online = some true;
  is_speaking = some false;
}

abbrev sarah : Person
sarah = record {
  id = "user_sarah";
  name = "Sarah Wilson";
  username = "sarah.wilson";
  role = listener;
  avatar = avatar "13";
  is_friend = none;
  online = some true;
  is_speaking = none;
}

abbrev james : Person
james = record {
  id = "user_james";
  name = "James Lee";
  username = "james.lee";
  role = listener;
  avatar = avatar "14";
  is_friend = none;
  online = some true;
  is_speaking = none;
}

abbrev priya : Person
priya = record {
  id = "user_priya";
  name = "Priya Shah";
  username = "priya.shah";
  role = listener;
  avatar = avatar "44";
  is_friend = none;
  online = some true;
  is_speaking = none;
}

abbrev wade : Person
wade = record {
  id = "user_wade";
  name = "Wade Warren";
  username = "wade.warren";
  role = listener;
  avatar = avatar "15";
  is_friend = some true;
  online = some true;
  is_speaking = none;
}

abbrev jenny : Person
jenny = record {
  id = "user_jenny";
  name = "Jenny Wilson";
  username = "jenny.wilson";
  role = listener;
  avatar = avatar "49";
  is_friend = none;
  online = some true;
  is_speaking = none;
}

abbrev arla : Person
arla = record {
  id = "user_arla";
  name = "Arlene McCoy";
  username = "arlene.mccoy";
  role = listener;
  avatar = avatar "5";
  is_friend = some true;
  online = some true;
  is_speaking = none;
}

abbrev cody : Person
cody = record {
  id = "user_cody";
  name = "Cody Fisher";
  username = "cody.fisher";
  role = listener;
  avatar = avatar "7";
  is_friend = none;
  online = some true;
  is_speaking = none;
}

abbrev dianne : Person
dianne = record {
  id = "user_dianne";
  name = "Dianne Russell";
  username = "dianne.russell";
  role = speaker;
  avatar = avatar "25";
  is_friend = some true;
  online = some false;
  is_speaking = none;
}

abbrev esther : Person
esther = record {
  id = "user_esther";
  name = "Esther Howard";
  username = "esther.howard";
  role = speaker;
  avatar = avatar "31";
  is_friend = none;
  online = some true;
  is_speaking = none;
}

abbrev floyd : Person
floyd = record {
  id = "user_floyd";
  name = "Floyd Miles";
  username = "floyd.miles";
  role = moderator;
  avatar = avatar "20";
  is_friend = none;
  online = some true;
  is_speaking = none;
}

abbrev brooklyn : Person
brooklyn = record {
  id = "user_brooklyn";
  name = "Brooklyn Simmons";
  username = "brooklyn.simmons";
  role = listener;
  avatar = avatar "18";
  is_friend = none;
  online = some true;
  is_speaking = none;
}

abbrev pub people : List Person
people =
    alice ∷ brian ∷ carol ∷ sarah ∷ james ∷ priya ∷ wade ∷ jenny ∷ arla ∷ cody ∷ dianne ∷ esther
    ∷ floyd ∷ brooklyn ∷ []

-- `people[i]` at an index of the list.
abbrev pub person_at : ℕ → Person
person_at i = get_or people i alex
