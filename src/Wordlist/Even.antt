-- ===== src/Wordlist/Even.antt =====
-- `EVEN_WORDS` of rs/src/wordlist.rs, in the order of the byte that each word stands for.
use Prim.Native.String.{String}
use minisign_rs.Base.{List, [], ◌∷◌}

abbrev pub even_words : List String
even_words =
    "aardvark" ∷ "absurd" ∷ "accrue" ∷ "acme" ∷ "adrift" ∷ "adult" ∷ "afflict" ∷ "ahead" ∷ "aimless"
    ∷ "algol" ∷ "allow" ∷ "alone" ∷ "ammo" ∷ "ancient" ∷ "apple" ∷ "artist" ∷ "assume" ∷ "athens"
    ∷ "atlas" ∷ "aztec" ∷ "baboon" ∷ "backfield" ∷ "backward" ∷ "basalt" ∷ "beaming" ∷ "bedlamp"
    ∷ "beehive" ∷ "beeswax" ∷ "befriend" ∷ "belfast" ∷ "berserk" ∷ "billiard" ∷ "bison"
    ∷ "blackjack" ∷ "blockade" ∷ "blowtorch" ∷ "bluebird" ∷ "bombast" ∷ "bookshelf" ∷ "brackish"
    ∷ "breadline" ∷ "breakup" ∷ "brickyard" ∷ "briefcase" ∷ "burbank" ∷ "button" ∷ "buzzard"
    ∷ "cement" ∷ "chairlift" ∷ "chatter" ∷ "checkup" ∷ "chisel" ∷ "choking" ∷ "chopper"
    ∷ "christmas" ∷ "clamshell" ∷ "classic" ∷ "classroom" ∷ "cleanup" ∷ "clockwork" ∷ "cobra"
    ∷ "commence" ∷ "concert" ∷ "cowbell" ∷ "crackdown" ∷ "cranky" ∷ "crowfoot" ∷ "crucial"
    ∷ "crumpled" ∷ "crusade" ∷ "cubic" ∷ "deadbolt" ∷ "deckhand" ∷ "dogsled" ∷ "dosage" ∷ "dragnet"
    ∷ "drainage" ∷ "dreadful" ∷ "drifter" ∷ "dropper" ∷ "drumbeat" ∷ "drunken" ∷ "dupont"
    ∷ "dwelling" ∷ "eating" ∷ "edict" ∷ "egghead" ∷ "eightball" ∷ "endorse" ∷ "endow" ∷ "enlist"
    ∷ "erase" ∷ "escape" ∷ "exceed" ∷ "eyeglass" ∷ "eyetooth" ∷ "facial" ∷ "fallout" ∷ "flagpole"
    ∷ "flatfoot" ∷ "flytrap" ∷ "fracture" ∷ "fragile" ∷ "framework" ∷ "freedom" ∷ "frighten"
    ∷ "gazelle" ∷ "geiger" ∷ "glasgow" ∷ "glitter" ∷ "glucose" ∷ "goggles" ∷ "goldfish" ∷ "gremlin"
    ∷ "guidance" ∷ "hamlet" ∷ "highchair" ∷ "hockey" ∷ "hotdog" ∷ "indoors" ∷ "indulge" ∷ "inverse"
    ∷ "involve" ∷ "island" ∷ "janus" ∷ "jawbone" ∷ "keyboard" ∷ "kickoff" ∷ "kiwi" ∷ "klaxon"
    ∷ "lockup" ∷ "merit" ∷ "minnow" ∷ "miser" ∷ "mohawk" ∷ "mural" ∷ "music" ∷ "neptune" ∷ "newborn"
    ∷ "nightbird" ∷ "obtuse" ∷ "offload" ∷ "oilfield" ∷ "optic" ∷ "orca" ∷ "payday" ∷ "peachy"
    ∷ "pheasant" ∷ "physique" ∷ "playhouse" ∷ "pluto" ∷ "preclude" ∷ "prefer" ∷ "preshrunk"
    ∷ "printer" ∷ "profile" ∷ "prowler" ∷ "pupil" ∷ "puppy" ∷ "python" ∷ "quadrant" ∷ "quiver"
    ∷ "quota" ∷ "ragtime" ∷ "ratchet" ∷ "rebirth" ∷ "reform" ∷ "regain" ∷ "reindeer" ∷ "rematch"
    ∷ "repay" ∷ "retouch" ∷ "revenge" ∷ "reward" ∷ "rhythm" ∷ "ringbolt" ∷ "robust" ∷ "rocker"
    ∷ "ruffled" ∷ "sawdust" ∷ "scallion" ∷ "scenic" ∷ "scorecard" ∷ "scotland" ∷ "seabird"
    ∷ "select" ∷ "sentence" ∷ "shadow" ∷ "showgirl" ∷ "skullcap" ∷ "skydive" ∷ "slingshot"
    ∷ "slothful" ∷ "slowdown" ∷ "snapline" ∷ "snapshot" ∷ "snowcap" ∷ "snowslide" ∷ "solo"
    ∷ "spaniel" ∷ "spearhead" ∷ "spellbind" ∷ "spheroid" ∷ "spigot" ∷ "spindle" ∷ "spoilage"
    ∷ "spyglass" ∷ "stagehand" ∷ "stagnate" ∷ "stairway" ∷ "standard" ∷ "stapler" ∷ "steamship"
    ∷ "stepchild" ∷ "sterling" ∷ "stockman" ∷ "stopwatch" ∷ "stormy" ∷ "sugar" ∷ "surmount"
    ∷ "suspense" ∷ "swelter" ∷ "tactics" ∷ "talon" ∷ "tapeworm" ∷ "tempest" ∷ "tiger" ∷ "tissue"
    ∷ "tonic" ∷ "tracker" ∷ "transit" ∷ "trauma" ∷ "treadmill" ∷ "trojan" ∷ "trouble" ∷ "tumor"
    ∷ "tunnel" ∷ "tycoon" ∷ "umpire" ∷ "uncut" ∷ "unearth" ∷ "unwind" ∷ "uproot" ∷ "upset"
    ∷ "upshot" ∷ "vapor" ∷ "village" ∷ "virus" ∷ "vulcan" ∷ "waffle" ∷ "wallet" ∷ "watchword"
    ∷ "wayside" ∷ "willow" ∷ "woodlark" ∷ "zulu" ∷ []
